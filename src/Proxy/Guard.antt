-- ===== src/Proxy/Guard.antt =====
-- `bearerAuth` and its use in `run` of cmd/mcp-media-proxy/main.go, with `bearerRoundTripper`, its use
-- in `Connect` and `forward` of internal/proxy/upstream.go.
use mcp_media.Prelude.{
  ◌≡◌, ◌≢◌, ◌↔◌, sym, Bool, true, Option, none, some, [], ◌++◌, if◌then◌else◌, Bool-cases, inl, inr,
  arith, ◌∙◌, ap,
}
use mcp_media.Names.{String}
use mcp_media.Text.{Bytes, codes, text_eq, is_empty}
use mcp_media.Text.Laws.{text_eq_iff, is_empty_iff}

-- `bearerAuth`, on the Authorization header
unfoldable pub bearer_auth : Bytes → Bytes → Bool
bearer_auth token header = text_eq header (codes "Bearer " ++ token)

-- Whether the handler that `run` builds lets a request through.
unfoldable pub lets_through : Bytes → Bytes → Bool
lets_through token header = if is_empty token then true else bearer_auth token header

-- The header of a request to the upstream server, which has none of its own.
unfoldable pub upstream_authorization : Bytes → Bytes
upstream_authorization token = if is_empty token then [] else codes "Bearer " ++ token

pub data Forwarded (Answer : Type 0) : Type 0 where
  unconnected : Forwarded Answer
  answered : Answer → Forwarded Answer

-- `forward`: the session as its call of a tool, whose arguments are left out where they are empty
unfoldable pub forward :
    {Answer : Type 0} → Option (String → Option Bytes → Answer) → String → Bytes → Forwarded Answer
forward none name arguments = unconnected
forward (some call) name arguments =
    answered (call name (if is_empty arguments then none else some arguments))

-- Where a proxy that asks for a token is the upstream server of another one, it lets the requests of
-- that one through exactly if both have the same token.
upstream_authorization_iff :
    (token own : Bytes)
    → own ≢ []
    → (lets_through own (upstream_authorization token) ≡ true) ↔ (token ≡ own)
unfolding lets_through bearer_auth upstream_authorization
upstream_authorization_iff token own given = elim (Bool-cases (is_empty own)) [
  | inl missing ↦ absurd (given ((is_empty_iff own).0 missing))
  | inr asks ↦ elim (Bool-cases (is_empty token)) [
    | inl none_sent ↦
        let nothing : token ≡ [] = (is_empty_iff token).0 none_sent in
        rw (asks, none_sent)
          (
            (λ h. absurd (ground (arith, (text_eq_iff [] (codes "Bearer " ++ own)).0 h))),
            (λ same. absurd (given (sym same ∙ nothing))),
          )
    | inr sent ↦
        rw (asks, sent)
          (
            (λ h.
                let same = (text_eq_iff (codes "Bearer " ++ token) (codes "Bearer " ++ own)).0 h in
                ground (arith, same)),
            (λ same.
                (text_eq_iff (codes "Bearer " ++ token) (codes "Bearer " ++ own)).1
                  (ap (λ t. codes "Bearer " ++ t) same)),
          )
  ]
]
