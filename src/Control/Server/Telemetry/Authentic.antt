-- ===== src/Control/Server/Telemetry/Authentic.antt =====
-- A machine's state and its isolation answer only to authentic telemetry of that machine.
use mathlib.Core.Path.{subst}
use ganglion_oob.Prelude.{
  ℕ, String, Option, some, Bool, true, false, not, ◌&&◌, List, [], ◌∷◌, ◌++◌, ◌≡◌, ◌≢◌, refl, sym,
  ap, ◌∙◌, ◌⊎◌, inl, inr, Bool-cases, if◌then◌else◌, Option-cases, str_eq, eq_iff, arith, leb,
}
use ganglion_oob.Prelude.Bytes.{Bytes}
use ganglion_oob.Prelude.Dict.{lookup, lookup-insert}
use ganglion_oob.Channel.Crypto.{Crypto}
use ganglion_oob.Channel.Outcome.{Outcome, ok}
use ganglion_oob.Channel.Frame.{Frame, parse}
use ganglion_oob.Channel.Receiver.{
  Decoders, Receiver, Accepted, allowed, keys_for, decrypt, open_admitted, open_frame,
  register_frame, bind_payload,
}
use ganglion_oob.Channel.Receiver.Replay.{outcome_cases, open_admitted-ok}
use ganglion_oob.Channel.Receiver.Security.{open_frame-ok, admit-ok}
use ganglion_oob.Decision.{Verdict, Fact, decide}
use ganglion_oob.Decision.Policy.{default_engine}
use ganglion_oob.Control.VmId.{safe_vm_id}
use ganglion_oob.Control.Scoring.{VmState, isolation_threshold, recalculate_score}
use ganglion_oob.Control.Engine.{
  Engine, RawEvent, vm_of, put_vm, fact_of, process_event, process_events, log_verdict,
  queue_isolation, respond, process_batch,
}
use ganglion_oob.Control.Isolation.Batch.{process_batch-queue, machine}
use ganglion_oob.Control.Server.{is_listed}
use ganglion_oob.Control.Server.Wire.{Connection, recv_framed}
use ganglion_oob.Control.Server.Telemetry.{TelemetryServer, Texts, take_in, telemetry}

log_verdict-vms :
    (vm_id : String) (f : Fact) (v : Verdict) (e : Engine) → (log_verdict vm_id f v e).vms ≡ e.vms
unfolding log_verdict
log_verdict-vms vm_id f v e = ground arith

queue_isolation-vms :
    (vm_id : String) (vm : VmState) (e : Engine) → (queue_isolation vm_id vm e).vms ≡ e.vms
unfolding queue_isolation
queue_isolation-vms vm_id vm e = ground arith

module _ (digits : ℕ → String) (now : ℕ) where
  process_events-vms :
      (vm_id : String) (events : List RawEvent) (e : Engine) (vm : VmState)
      → (process_events digits now vm_id events e vm).0.vms ≡ e.vms
  unfolding process_events process_event
  process_events-vms vm_id [] e vm = refl
  process_events-vms vm_id (raw ∷ rest) e vm =
      let (e', vm') = process_event digits now vm_id raw e vm in
      let step : e'.vms ≡ e.vms = ground arith in process_events-vms vm_id rest e' vm' ∙ step

  module _ (k vm_id : String) (other : k ≢ vm_id) where
    lookup-put_vm : (vm : VmState) (e : Engine) → lookup k (put_vm vm_id vm e).vms ≡ lookup k e.vms
    lookup-put_vm vm e = ground (arith, lookup-insert vm_id k vm e.vms, eq_iff vm_id k, other)

    lookup-respond :
        (e : Engine) (vm : VmState) → lookup k (respond now vm_id e vm).vms ≡ lookup k e.vms
    unfolding respond
    lookup-respond e vm =
        let scored = recalculate_score now vm in
        let f = fact_of e.seen_techniques scored in
        let decision = decide default_engine f in
        let logged = log_verdict vm_id f decision.verdict e in
        lookup-put_vm (record scored { last_decision = some decision })
          (queue_isolation vm_id scored logged)
        ∙ ap (lookup k) (queue_isolation-vms vm_id scored logged)
        ∙ ap (lookup k) (log_verdict-vms vm_id f decision.verdict e)

  module _ (raw_id : Option String) (events : List RawEvent) (e : Engine) (k : String)
      (other : k ≢ safe_vm_id raw_id) where
    lookup-process_batch : lookup k (process_batch digits now raw_id events e).vms ≡ lookup k e.vms
    unfolding process_batch
    lookup-process_batch =
        let vm_id = safe_vm_id raw_id in
        let seen = record (vm_of vm_id e) { last_seen = now; silent = false } in
        let (e', vm') = process_events digits now vm_id events e seen in
        lookup-respond k vm_id other e' vm' ∙ ap (lookup k) (process_events-vms vm_id events e seen)

is_listed-append :
    (k j : String) (l : List String) → k ≢ j → is_listed k (l ++ j ∷ []) ≡ is_listed k l
unfolding is_listed
is_listed-append k j [] other = ground (arith, eq_iff k j)
is_listed-append k j (x ∷ l) other = rw (is_listed-append k j l other) refl

is_listed-queue_with :
    (k j : String) (b : Bool) (l : List String)
    → k ≢ j
    → is_listed k (if b then l ++ j ∷ [] else l) ≡ is_listed k l
is_listed-queue_with k j true l other = is_listed-append k j l other
is_listed-queue_with k j false l other = refl

-- What a machine looks like from outside: its state, and whether its isolation is queued.
abbrev pub view : String → Engine → Option VmState × Bool
view k e = (lookup k e.vms, is_listed k e.isolation_queue)

process_batch-view :
    (digits : ℕ → String) (now : ℕ) (raw_id : Option String) (events : List RawEvent) (e : Engine)
    (k : String)
    → k ≢ safe_vm_id raw_id
    → view k (process_batch digits now raw_id events e) ≡ view k e
process_batch-view digits now raw_id events e k other =
    rw
      (
        lookup-process_batch digits now raw_id events e k other,
        process_batch-queue digits now raw_id events e,
        is_listed-queue_with k (safe_vm_id raw_id)
            (leb isolation_threshold (machine digits now raw_id events e).threat_score
              && not (machine digits now raw_id events e).isolated)
            e.isolation_queue other,
      )
      refl

module _ (c : Crypto) (d : Decoders) where
  bind_payload-plaintext :
      (f : Frame) (plaintext : Bytes) (acc : Accepted)
      → bind_payload d f plaintext ≡ ok acc
      → acc.plaintext ≡ plaintext
  unfolding bind_payload
  bind_payload-plaintext f plaintext acc h = ground arith

  -- The plaintext of an accepted frame is what its ciphertext decrypts to.
  open_admitted-decrypt :
      (f : Frame) (r : Receiver) (acc : Accepted)
      → (open_admitted c d f r).1 ≡ ok acc
      → decrypt c f (keys_for c f.agent_id r).1 ≡ ok acc.plaintext
  unfolding open_admitted
  open_admitted-decrypt f r acc h = elim (outcome_cases (decrypt c f (keys_for c f.agent_id r).1)) [
    | inl (e, q) ↦
        let no_way : Outcome.refused e ≡ ok acc = rw (q, open_admitted) at h in absurd (cc no_way)
    | inr (plaintext, q) ↦ elim (outcome_cases (register_frame f (keys_for c f.agent_id r).0).1) [
      | inl (e, q2) ↦
          let no_way : Outcome.refused e ≡ ok acc = rw (q, q2, open_admitted) at h in
          absurd (cc no_way)
      | inr (t, q2) ↦
          let bound : bind_payload d f plaintext ≡ ok acc = rw (q, q2, open_admitted) at h in
          q ∙ ap ok (sym (bind_payload-plaintext f plaintext acc bound))
    ]
  ]

  module _ (texts : Texts) (now : ℕ) (skew : Bytes → Bool) (conn : Connection) (s : TelemetryServer)
      (k : String) where
    -- The connection brought a frame that `open` admits, that decrypts under the key of the agent it
    -- names, and whose agent is this machine.
    abbrev pub IsAuthentic : Type 0
    IsAuthentic =
        (raw : Bytes) × (f : Frame) × (plaintext : Bytes) × (recv_framed conn ≡ some raw)
        × (parse d.decodes raw ≡ ok f)
        × (f.version ≡ 2)
        × (allowed s.receiver.allowed_agents f.agent_id ≡ true)
        × (skew f.timestamp ≡ false)
        × (decrypt c f (keys_for c f.agent_id s.receiver).1 ≡ ok plaintext)
        × (k ≡ safe_vm_id (some (texts.decode f.agent_id)))

    abbrev handled : TelemetryServer
    handled = telemetry c d texts now skew conn s

    accepts :
        (raw : Bytes) (acc : Accepted)
        → recv_framed conn ≡ some raw
        → (open_frame c d skew raw s.receiver).1 ≡ ok acc
        → (view k (take_in c d texts now acc s.engine) ≡ view k s.engine) ⊎ IsAuthentic
    accepts raw acc arrived h =
        let (f, admitted, opened, _) = open_frame-ok c d skew raw s.receiver acc h in
        let (parsed, v, known, in_time) = admit-ok d skew s.receiver raw f admitted in
        let bound = (open_admitted-ok c d f s.receiver acc opened).1 in
        elim (Bool-cases (str_eq k (safe_vm_id (some (texts.decode acc.vm_id))))) [
          | inl e ↦ inr (
            raw,
            f,
            acc.plaintext,
            arrived,
            parsed,
            v,
            known,
            in_time,
            open_admitted-decrypt f s.receiver acc opened,
            (eq_iff k (safe_vm_id (some (texts.decode acc.vm_id)))).0 e
                ∙ ap (λ b. safe_vm_id (some (texts.decode b))) bound,
          )
          | inr e ↦ inl (
              process_batch-view texts.digits now (some (texts.decode acc.vm_id))
                (texts.batch acc.plaintext) s.engine k
                (λ same. cc (e, (eq_iff k (safe_vm_id (some (texts.decode acc.vm_id)))).1 same)))
        ]

    hands_on :
        (raw : Bytes) (acc : Accepted)
        → recv_framed conn ≡ some raw
        → (open_frame c d skew raw s.receiver).1 ≡ ok acc
        → handled.engine ≡ take_in c d texts now acc s.engine
    unfolding telemetry
    hands_on raw acc arrived q = rw (arrived, q, telemetry) refl

    -- Whatever arrives on a connection, a machine's state and its place in the isolation queue stay as
    -- they are, unless it brought a frame of version 2, in time, from an allowed agent, that decrypts
    -- under that agent's key and whose agent's identifier is the machine's.
    pub telemetry-IsAuthentic : (view k handled.engine ≡ view k s.engine) ⊎ IsAuthentic
    unfolding telemetry
    telemetry-IsAuthentic = elim (Option-cases (recv_framed conn)) [
      | inl none_ ↦ inl (rw (none_, telemetry) refl)
      | inr (raw, arrived) ↦ elim (outcome_cases (open_frame c d skew raw s.receiver).1) [
        | inl (e, q) ↦ inl (rw (arrived, q, telemetry) refl)
        | inr (acc, q) ↦
            subst (λ e. (view k e ≡ view k s.engine) ⊎ IsAuthentic)
              (sym (hands_on raw acc arrived q)) (accepts raw acc arrived q)
      ]
    ]
