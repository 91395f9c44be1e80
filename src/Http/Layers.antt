-- ===== src/Http/Layers.antt =====
-- `app` of src/http/mod.rs: the router below its layers, which are the crate tower-http.
pub mod Answers
use ledger_rs.Prelude.{
  ℕ, ◌<◌, ◌≤◌, ◌≡◌, ◌⊎◌, Bool, true, ◌||◌, Option, none, some, List, [], ◌∷◌, All, if◌then◌else◌,
}
use ledger_rs.Prelude.Text.{Text, codes, text_eq}
use ledger_rs.Config.{Config}
use ledger_rs.Decimal.{Decimal}
use ledger_rs.Domain.Fingerprint.{Digest}
use ledger_rs.Error.{LedgerError}
use ledger_rs.Db.Session.{Env, World}
use ledger_rs.Http.Router.{Request, Reply, Framework, AppState, handle_panic, serve}

-- A request on the wire: what the router reads of it, its `Content-Length`, its other headers, and
-- which of them are marked as sensitive.
pub record HttpRequest (D : Type 0) : Type 0 where
  pub request : Request D
  pub content_length : Option ℕ
  pub header : Text → Option Text
  pub sensitive : Text → Bool

pub record HttpReply (D : Type 0) : Type 0 where
  pub reply : Reply D
  pub reply_header : Text → Option Text

-- What answers a request, over a state of its own; `none` is a panic, which drops the connection.
abbrev pub Service : Type 0 → Type 0 → Type 0
Service D W = HttpRequest D → W → Option (HttpReply D) × W

abbrev pub Layer : Type 0 → Type 0 → Type 0
Layer D W = Service D W → Service D W

-- The layers of tower-http that the service uses, with the constructors' arguments. The duration
-- is in seconds.
pub record Tower (D W : Type 0) : Type 0 where
  pub request_body_limit : ℕ → Layer D W
  pub timeout : ℕ → ℕ → Layer D W
  pub catch_panic : HttpReply D → Layer D W
  pub trace : Layer D W
  pub set_sensitive_request_headers : List Text → Layer D W
  pub propagate_request_id : Text → Layer D W
  pub set_request_id : Text → Layer D W

-- `REQUEST_ID_HEADER`
abbrev pub request_id_header : Text
request_id_header = codes "x-request-id"

abbrev pub request_timeout_status : ℕ
request_timeout_status = 408

-- `header::AUTHORIZATION`, `header::COOKIE`, `header::PROXY_AUTHORIZATION`
abbrev pub sensitive_headers : List Text
sensitive_headers = codes "authorization" ∷ codes "cookie" ∷ codes "proxy-authorization" ∷ []

-- A reply with no header of the service's own.
abbrev pub bare : {D : Type 0} → Reply D → HttpReply D
bare r = record { reply = r; reply_header = λ name. none }

-- `app`: the last layer is the outermost.
unfoldable pub app : {A D W : Type 0} → Tower D W → Config A → Service D W → Service D W
app tower config router = tower.set_request_id request_id_header (
    tower.propagate_request_id request_id_header (
      tower.set_sensitive_request_headers sensitive_headers (
        tower.trace (
          tower.catch_panic (bare handle_panic) (
            tower.timeout request_timeout_status config.request_timeout
              (tower.request_body_limit config.max_body_bytes router))))))

abbrev pub with_header : {D : Type 0} → Text → Text → HttpRequest D → HttpRequest D
with_header name value r = record r {
  header = λ n. if text_eq name n then some value else r.header n;
}

abbrev pub with_reply_header : {D : Type 0} → Text → Text → HttpReply D → HttpReply D
with_reply_header name value r = record r {
  reply_header = λ n. if text_eq name n then some value else r.reply_header n;
}

-- What the layers are documented to do. A body whose length is announced and too large is refused
-- with 413 before anything below sees the request, and other bodies are cut off where they exceed
-- the limit (`limited`). A timeout lets an answer through or gives an empty reply of its status.
-- Marking headers as sensitive (`marked`) changes nothing else, and `traced` is what the tracing layer records of a request. An identifier is drawn for a request
-- that has none, and copied into a reply that has none.
pub record TowerLaws {D W : Type 0} (tower : Tower D W) : Type 0 where
  pub limited : ℕ → HttpRequest D → HttpRequest D
  pub empty_reply : ℕ → HttpReply D
  pub marked : List Text → HttpRequest D → HttpRequest D
  pub traced : HttpRequest D → W → W
  pub fresh_id : HttpRequest D → W → Text
  pub empty_status : (status : ℕ) → (empty_reply status).reply.reply_status ≡ status
  pub empty_bare : (status : ℕ) (name : Text) → (empty_reply status).reply_header name ≡ none
  pub marked_sensitive :
      (names : List Text) (r : HttpRequest D)
      → All (λ name. (marked names r).sensitive name ≡ true) names
  pub marked_same :
      (names : List Text) (r : HttpRequest D)
      → ((marked names r).request ≡ r.request)
        × ((marked names r).content_length ≡ r.content_length)
        × ((marked names r).header ≡ r.header)
  pub limit_refuses :
      (max n : ℕ) (s : Service D W) (r : HttpRequest D) (w : W)
      → r.content_length ≡ some n
      → max < n
      → tower.request_body_limit max s r w ≡ (some (empty_reply 413), w)
  pub limit_passes :
      (max : ℕ) (s : Service D W) (r : HttpRequest D) (w : W)
      → ((n : ℕ) → r.content_length ≡ some n → n ≤ max)
      → tower.request_body_limit max s r w ≡ s (limited max r) w
  pub timeout_or_answer :
      (status t : ℕ) (s : Service D W) (r : HttpRequest D) (w : W)
      → (tower.timeout status t s r w ≡ s r w)
        ⊎ ((w' : W) × (tower.timeout status t s r w ≡ (some (empty_reply status), w')))
  pub panic_caught :
      (reply : HttpReply D) (s : Service D W) (r : HttpRequest D) (w w' : W)
      → s r w ≡ (none, w')
      → tower.catch_panic reply s r w ≡ (some reply, w')
  pub answer_kept :
      (reply x : HttpReply D) (s : Service D W) (r : HttpRequest D) (w w' : W)
      → s r w ≡ (some x, w')
      → tower.catch_panic reply s r w ≡ (some x, w')
  pub trace_records :
      (s : Service D W) (r : HttpRequest D) (w : W) → tower.trace s r w ≡ s r (traced r w)
  pub headers_marked :
      (names : List Text) (s : Service D W) (r : HttpRequest D) (w : W)
      → tower.set_sensitive_request_headers names s r w ≡ s (marked names r) w
  pub id_propagated :
      (name value : Text) (s : Service D W) (r : HttpRequest D) (x : HttpReply D) (w w' : W)
      → r.header name ≡ some value
      → s r w ≡ (some x, w')
      → x.reply_header name ≡ none
      → tower.propagate_request_id name s r w ≡ (some (with_reply_header name value x), w')
  pub id_kept :
      (name value : Text) (s : Service D W) (r : HttpRequest D) (w : W)
      → r.header name ≡ some value
      → tower.set_request_id name s r w ≡ s r w
  pub id_drawn :
      (name : Text) (s : Service D W) (r : HttpRequest D) (w : W)
      → r.header name ≡ none
      → tower.set_request_id name s r w ≡ s (with_header name (fresh_id r w) r) w

-- `router(pool, config)` as a service. A panic of a handler has the reply of `handle_panic` there
-- already, which is the one that the layer gives it.
abbrev pub router_service :
    {D : Type 0}
    → ⦃dec : Decimal D⦄ → Framework D
    → (LedgerError → Text)
    → Digest
    → Env
    → AppState
    → Service D World
router_service framework display dg env state r w =
    let (answer, w') = serve framework display dg env state r.request w in (some (bare answer), w')
