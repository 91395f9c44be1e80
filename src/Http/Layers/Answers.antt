-- ===== src/Http/Layers/Answers.antt =====
-- Every request gets a reply, whatever becomes of it below the layers.
use ledger_rs.Prelude.{
  ℕ, ◌<◌, ◌≤◌, ◌≡◌, inl, inr, refl, ap, ◌∙◌, Bool-cases, Option, Option-cases, none, some, All,
  true, ltb, ltb→lt, arith,
}
use ledger_rs.Prelude.Text.{Text, text_eq_refl}
use ledger_rs.Config.{Config}
use ledger_rs.Http.Router.{handle_panic}
use ledger_rs.Http.Layers.{
  HttpRequest, HttpReply, Service, Tower, TowerLaws, app, bare, request_id_header,
  request_timeout_status, sensitive_headers, with_header, with_reply_header,
}

module _ {A D W : Type 0} (tower : Tower D W) (laws : TowerLaws tower) (config : Config A)
    (router : Service D W) where
  -- No length is announced that is too large.
  abbrev Fits : HttpRequest D → Type 0
  Fits r = (n : ℕ) → r.content_length ≡ some n → n ≤ config.max_body_bytes

  -- Where an answer to a request comes from, and the state after it.
  pub data Origin (r : HttpRequest D) (w : W) (answer : HttpReply D) (after : W) : Type 0 where
    refused :
        (n : ℕ)
        → r.content_length ≡ some n
        → config.max_body_bytes < n
        → answer.reply.reply_status ≡ 413
        → after ≡ w
        → Origin r w answer after
    timed_out : answer.reply.reply_status ≡ request_timeout_status → Origin r w answer after
    routed :
        Fits r
        → router (laws.limited config.max_body_bytes r) w ≡ (some answer, after)
        → Origin r w answer after
    recovered :
        Fits r
        → router (laws.limited config.max_body_bytes r) w ≡ (none, after)
        → answer ≡ bare handle_panic
        → Origin r w answer after

  -- What the client is sent, what is traced of the request, and where the answer comes from.
  pub record IsAnswered (r : HttpRequest D) (w : W) (result : Option (HttpReply D) × W)
      : Type 0 where
    pub id : Text
    pub own_id : (v : Text) → r.header request_id_header ≡ some v → id ≡ v
    pub seen : HttpRequest D
    pub same_request : seen.request ≡ r.request
    pub same_length : seen.content_length ≡ r.content_length
    pub identified : seen.header request_id_header ≡ some id
    pub hidden : All (λ name. seen.sensitive name ≡ true) sensitive_headers
    pub answer : HttpReply D
    pub after : W
    pub sent : result ≡ (some (with_reply_header request_id_header id answer), after)
    pub origin : Origin seen (laws.traced seen w) answer after

  abbrev limited : Service D W
  limited = tower.request_body_limit config.max_body_bytes router

  abbrev timed : Service D W
  timed = tower.timeout request_timeout_status config.request_timeout limited

  abbrev caught : Service D W
  caught = tower.catch_panic (bare handle_panic) timed

  module _
      (plain : (r : HttpRequest D) (w w' : W) (x : HttpReply D)
        → router r w ≡ (some x, w')
        → x.reply_header request_id_header ≡ none) where
    record Caught (r : HttpRequest D) (w : W) : Type 0 where
      answer : HttpReply D
      after : W
      gives : caught r w ≡ (some answer, after)
      from : Origin r w answer after
      unnamed : answer.reply_header request_id_header ≡ none

    -- The router's result, when the request has got there.
    through :
        (r : HttpRequest D) (w : W) (y : Option (HttpReply D) × W)
        → Fits r
        → router (laws.limited config.max_body_bytes r) w ≡ y
        → timed r w ≡ y
        → Caught r w
    through r w (some x, w') fits e h = record {
      answer = x;
      after = w';
      gives = laws.answer_kept _ _ _ _ _ _ h;
      from = routed fits e;
      unnamed = plain _ _ _ _ e;
    }
    through r w (none, w') fits e h = record {
      answer = bare handle_panic;
      after = w';
      gives = laws.panic_caught _ _ _ _ _ h;
      from = recovered fits e refl;
      unnamed = refl;
    }

    within : (r : HttpRequest D) (w : W) → timed r w ≡ limited r w → Fits r → Caught r w
    within r w let_in fits = through r w _ fits refl (let_in ∙ laws.limit_passes _ router r w fits)

    on_time : (r : HttpRequest D) (w : W) → timed r w ≡ limited r w → Caught r w
    on_time r w let_in = elim (Option-cases r.content_length) [
      | inl unknown ↦ within r w let_in (λ n e. absurd (cc (unknown, e)))
      | inr (n, known) ↦ elim (Bool-cases (ltb config.max_body_bytes n)) [
        | inl large ↦ record {
          answer = laws.empty_reply 413;
          after = w;
          gives =
              laws.answer_kept _ _ _ _ _ _
                (let_in ∙ laws.limit_refuses _ n router r w known (ltb→lt _ _ large));
          from = refused n known (ltb→lt _ _ large) (laws.empty_status 413) refl;
          unnamed = laws.empty_bare 413 request_id_header;
        }
        | inr small ↦ within r w let_in (λ m e. let same : m ≡ n = cc (known, e) in ground arith)
      ]
    ]

    each-Caught : (r : HttpRequest D) (w : W) → Caught r w
    each-Caught r w =
        elim (laws.timeout_or_answer request_timeout_status config.request_timeout limited r w) [
          | inl let_in ↦ on_time r w let_in
          | inr (w', late) ↦ record {
            answer = laws.empty_reply request_timeout_status;
            after = w';
            gives = laws.answer_kept _ _ _ _ _ _ late;
            from = timed_out (laws.empty_status request_timeout_status);
            unnamed = laws.empty_bare request_timeout_status request_id_header;
          }
        ]

    -- A request that has its identifier.
    named-IsAnswered :
        (r r' : HttpRequest D) (w : W) (id : Text)
        → r'.request ≡ r.request
        → r'.content_length ≡ r.content_length
        → r'.header request_id_header ≡ some id
        → ((v : Text) → r.header request_id_header ≡ some v → id ≡ v)
        → app tower config router r w
          ≡ tower.propagate_request_id request_id_header
              (tower.set_sensitive_request_headers sensitive_headers (tower.trace caught))
              r'
              w
        → IsAnswered r w (app tower config router r w)
    named-IsAnswered r r' w id same length named own e =
        let seen = laws.marked sensitive_headers r' in
        let (same_seen, same_size, same_header) = laws.marked_same sensitive_headers r' in
        let below = each-Caught seen (laws.traced seen w) in
        record {
          id = id;
          own_id = own;
          seen = seen;
          same_request = same_seen ∙ same;
          same_length = same_size ∙ length;
          identified = ap (λ (f : Text → Option Text). f request_id_header) same_header ∙ named;
          hidden = laws.marked_sensitive sensitive_headers r';
          answer = below.answer;
          after = below.after;
          sent =
              e
              ∙ laws.id_propagated _ id _ r' below.answer w below.after named
                  (laws.headers_marked _ _ r' w ∙ laws.trace_records caught seen w ∙ below.gives)
                  below.unnamed;
          origin = below.from;
        }

    -- Whatever a request is and whatever becomes of it below the layers, `app` sends a reply and
    -- never drops the connection: where the router's own replies carry no request identifier, the
    -- reply carries one, which is the client's own if it sent one. The tracing layer sees the
    -- request with that identifier and with its credentials marked as sensitive. The reply is a 413
    -- for a body that is announced as too large, and nothing below the tracing has happened then;
    -- or a 408; or what the router answers; or the error of `handle_panic` if the router panics.
    -- The layers are assumed to do what they are documented to do.
    pub app_answers : (r : HttpRequest D) (w : W) → IsAnswered r w (app tower config router r w)
    unfolding app
    app_answers r w = elim (Option-cases (r.header request_id_header)) [
      | inl missing ↦
          named-IsAnswered r (with_header request_id_header (laws.fresh_id r w) r) w
            (laws.fresh_id r w) refl refl (rw (text_eq_refl request_id_header) refl)
            (λ v e. absurd (cc (missing, e))) (laws.id_drawn _ _ r w missing)
      | inr (v, own) ↦
          named-IsAnswered r r w v refl refl own (λ u e. cc (own, e)) (laws.id_kept _ v _ r w own)
    ]
