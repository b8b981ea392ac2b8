-- ===== src/Relayer/Calls/Exchange.antt =====
-- relayer/relay_client.go: the requests of EexecuteSafeTransactions as they are sent.
use go_polymarket_sdk.Common.{
  ℕ, ◌≡◌, ap, true, false, Option, some, String, List, [], ◌∷◌, ◌⊎◌, inl, inr, map,
}
use go_polymarket_sdk.Common.Int.{ℤ}
use go_polymarket_sdk.Wire.{Gjson}
use go_polymarket_sdk.Headers.{Hmac}
use go_polymarket_sdk.Client.Requests.{Request}
use go_polymarket_sdk.Relayer.{Ethereum, SafeTransaction, derive_safe}
use go_polymarket_sdk.Relayer.Execute.{
  TransactionRequest, SafeSigning, SafeContractConfig, Requested, deployed_of, nonce_of, submitted,
  RelayClient, Replies, nonce_in, is_deployed, eexecute_safe_transactions,
}
use go_polymarket_sdk.Relayer.Orderly.{IsOrderly, eexecute_safe_transactions-IsOrderly}
use go_polymarket_sdk.Relayer.Calls.{
  RelaySettings, tt_safe, nonce_request, deployed_request, submission,
}
use go_polymarket_sdk.Relayer.Calls.Submitted.{IsSubmission, submission-IsSubmission}

-- `hex` is an address's text, `json` the text that json.Marshal makes of a request.
module _ (eth : Ethereum) (hex : eth.Address → String) (json : TransactionRequest eth → String)
    (hm : Hmac) (now : ℤ) (s : RelaySettings) where
  unfoldable pub http_request_of : Requested eth → Request
  http_request_of (deployed_of safe) = deployed_request s (hex safe)
  http_request_of (nonce_of from) = nonce_request s (hex from) tt_safe
  http_request_of (submitted request) = submission hm now s (json request)

  module _ {F : Type 0} (G : Gjson F) (ss : SafeSigning eth) (big_int : String → Option ℤ)
      (init : List ℕ) where
    -- The first few of three requests: for the Safe's deployment, for its owner's nonce, and a submission.
    abbrev pub IsExchange : eth.Address → SafeContractConfig eth → Replies G → List Request → Type 0
    IsExchange from config replies rs =
        let deployed = deployed_request s (hex (derive_safe eth init from config.safe_factory)) in
        let nonce = nonce_request s (hex from) tt_safe in
        ((rs ≡ deployed ∷ []) × (is_deployed G eth ss big_int init replies.deployed ≡ false))
        ⊎ ((is_deployed G eth ss big_int init replies.deployed ≡ true)
            × ((rs ≡ deployed ∷ nonce ∷ [])
                ⊎ ((request : TransactionRequest eth) × (r : Request) × (rs
                      ≡ deployed ∷ nonce ∷ r ∷ [])
                    × (nonce_in G eth ss big_int init replies.nonce ≡ some request.nonce)
                    × (request.from ≡ from)
                    × (request.proxy_wallet ≡ derive_safe eth init from config.safe_factory)
                    × IsSubmission hm now s (json request) r)))

    orderly-IsExchange :
        (from : eth.Address) (config : SafeContractConfig eth) (replies : Replies G)
        (rs : List (Requested eth))
        → IsOrderly G eth ss big_int init from config replies rs
        → IsExchange from config replies (map http_request_of rs)
    unfolding http_request_of
    orderly-IsExchange from config replies rs (inl (e, d)) = inl (ap (map http_request_of) e, d)
    orderly-IsExchange from config replies rs (inr (d, inl e)) =
        inr (d, inl (ap (map http_request_of) e))
    orderly-IsExchange from config replies rs (inr (d, inr (request, e, n, f, p))) = inr (
      d,
      inr (
        request,
        submission hm now s (json request),
        ap (map http_request_of) e,
        n,
        f,
        p,
        submission-IsSubmission hm now s (json request),
      ),
    )

    -- With a signer and settings, EexecuteSafeTransactions sends, as far as it comes: a GET of
    -- /deployed with the Safe's address; where the server says that the Safe is deployed, one of
    -- /nonce with the owner's address and the type SAFE; and one POST to /submit, for the owner and
    -- the Safe, with the server's nonce. The post has the headers of the builder's credentials and
    -- of the relayer's key where there are such, with a signature over the time, the method, the
    -- path and the body that are sent, and none of them overwrites another.
    pub eexecute_safe_transactions-IsExchange :
        (c : RelayClient eth ss) (replies : Replies G) (txs : List (SafeTransaction eth))
        (key : ss.Key) (from : eth.Address) (config : SafeContractConfig eth)
        → c.signer ≡ some (key, from)
        → c.safe_contract_config ≡ some config
        → IsExchange from config replies
            (map http_request_of (eexecute_safe_transactions G eth ss big_int init c replies txs).0)
    eexecute_safe_transactions-IsExchange c replies txs key from config e k =
        orderly-IsExchange from config replies _ (
          eexecute_safe_transactions-IsOrderly G eth ss big_int init c replies txs key from config e
            k)
