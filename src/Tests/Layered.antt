-- ===== src/Tests/Layered.antt =====
-- A request through layers that do what those of tower-http are documented to do.
use ledger_rs.Prelude.{
  ℕ, ◌≡◌, refl, ap, sym, inl, true, false, Option, none, some, List, [], ◌∷◌, All, ltb, lt→ltb,
  if◌then◌else◌, arith, ◌≤◌, Bool-cases, inr, ltb→lt,
}
use ledger_rs.Prelude.Text.{Text, codes}
use ledger_rs.Decimal.Fixed.{Fixed, fixed}
use ledger_rs.Config.{Config, default_pool}
use ledger_rs.Db.Session.{World}
use ledger_rs.Http.Router.{other_body, serve}
use ledger_rs.Http.Layers.{
  HttpRequest, HttpReply, Service, Tower, TowerLaws, app, bare, with_header, with_reply_header,
  router_service,
}
use ledger_rs.Http.Layers.Answers.{IsAnswered, app_answers}
use ledger_rs.Tests.Sample.{checksum, calm, start}
use ledger_rs.Tests.Serving.{framework, posted, guarded, display}

abbrev empty_body : ℕ → HttpReply Fixed
empty_body status = bare (record { reply_status = status; body = other_body })

abbrev Answer : Type 0
Answer = Option (HttpReply Fixed) × World

abbrev limited_to : ℕ → Option ℕ → Answer → World → Answer
limited_to max none passed w = passed
limited_to max (some n) passed w = if ltb max n then (some (empty_body 413), w) else passed

abbrev recovering : HttpReply Fixed → Answer → Answer
recovering reply (none, w) = (some reply, w)
recovering reply (some x, w) = (some x, w)

abbrev named_reply : Text → Text → HttpReply Fixed → Option Text → HttpReply Fixed
named_reply name v x none = with_reply_header name v x
named_reply name v x (some own) = x

abbrev propagating : Text → Option Text → Answer → Answer
propagating name none answer = answer
propagating name (some v) (none, w) = (none, w)
propagating name (some v) (some x, w) = (some (named_reply name v x (x.reply_header name)), w)

abbrev drawing : Text → Option Text → HttpRequest Fixed → HttpRequest Fixed
drawing name none r = with_header name (codes "id-1") r
drawing name (some v) r = r

abbrev hide : HttpRequest Fixed → HttpRequest Fixed
hide r = record r { sensitive = λ name. true }

abbrev tower : Tower Fixed World
tower = record {
  request_body_limit = λ max s r w. limited_to max r.content_length (s r w) w;
  timeout = λ status t s. s;
  catch_panic = λ reply s r w. recovering reply (s r w);
  trace = λ s. s;
  set_sensitive_request_headers = λ names s r. s (hide r);
  propagate_request_id = λ name s r w. propagating name (r.header name) (s r w);
  set_request_id = λ name s r. s (drawing name (r.header name) r);
}

all_true : (names : List Text) → All (λ _. true ≡ true) names
all_true [] = tt
all_true (n ∷ ns) = (refl, all_true ns)

limited_pass :
    (max : ℕ) (o : Option ℕ) (passed : Answer) (w : World)
    → ((n : ℕ) → o ≡ some n → n ≤ max)
    → limited_to max o passed w ≡ passed
limited_pass max none passed w fits = refl
limited_pass max (some n) passed w fits = elim (Bool-cases (ltb max n)) [
  | inl large ↦ absurd (omega (arith, ltb→lt _ _ large, fits n refl))
  | inr small ↦ rw small refl
]

tower-TowerLaws : TowerLaws tower
tower-TowerLaws = record {
  limited = λ max r. r;
  empty_reply = empty_body;
  marked = λ names. hide;
  traced = λ r w. w;
  fresh_id = λ r w. codes "id-1";
  empty_status = λ status. refl;
  empty_bare = λ status name. refl;
  marked_sensitive = λ names r. all_true names;
  marked_same = λ names r. (refl, refl, refl);
  limit_refuses = λ max n s r w e large. rw (e, lt→ltb max n large) refl;
  limit_passes = λ max s r w fits. limited_pass max r.content_length (s r w) w fits;
  timeout_or_answer = λ status t s r w. inl refl;
  panic_caught = λ reply s r w w' e. rw e refl;
  answer_kept = λ reply x s r w w' e. rw e refl;
  trace_records = λ s r w. refl;
  headers_marked = λ names s r w. refl;
  id_propagated = λ name v s r x w w' h e unnamed. rw (h, e, unnamed) refl;
  id_kept = λ name v s r w h. rw h refl;
  id_drawn = λ name s r w h. rw h refl;
}

abbrev config : Config ℕ
config = record {
  database_url = codes "postgres://ledger";
  bind_addr = 8_080;
  pool = default_pool;
  request_timeout = 30;
  max_body_bytes = 65_536;
  shutdown_grace = 20;
  allow_funding_account_creation = false;
}

abbrev wired : HttpRequest Fixed
wired = record {
  request = posted;
  content_length = some 120;
  header = λ name. none;
  sensitive = λ name. false;
}

abbrev router : Service Fixed World
router = router_service framework display checksum calm guarded

router-plain :
    (r : HttpRequest Fixed) (w w' : World) (x : HttpReply Fixed)
    → router r w ≡ (some x, w')
    → x.reply_header (codes "x-request-id") ≡ none
router-plain r w w' x e =
    let same : bare (serve framework display checksum calm guarded r.request w).0 ≡ x = cc e in
    ap (λ (y : HttpReply Fixed). y.reply_header (codes "x-request-id")) (sym same)

app_answers_example :
    IsAnswered tower tower-TowerLaws config router wired start (app tower config router wired start)
app_answers_example = app_answers tower tower-TowerLaws config router router-plain wired start
