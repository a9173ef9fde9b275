-- ===== src/FakeTool/Handler/Retry.antt =====
-- Repeated invocations of the fake tool (internal/faketool/handler.go).
use run_state.Base.{
  ◌∙◌, Result, Option, ltb, ◌||◌, ◌==◌, sym, subst, str_eq, inr, inl, ap, Result-cases,
  Option-cases, List, Bool-cases, ◌≤◌, ℕ, some, none, Bool, ◌≡◌, true, refl, ok, false, err, arith,
}
use run_state.FakeTool.{record_effect, payload_conflict, ToolError, record_all, Request, Effects}
use run_state.FakeTool.Handler.{
  max_payload_bytes, decode_payload, Reply, withheld, message, recorded, json_content, check_call,
  ToolContent, Invocation, reply, invoke,
}
use run_state.Task.Json.{Json}
use run_state.Executor.Decode.{Library}
use run_state.Store.Answer.{delivered}
use run_state.FakeTool.{Effect}
use run_state.FakeTool.Idempotency.{record_effect-idempotent}

module _ (lib : Library) (jsonb_eq : Json → Json → Bool) where
  -- A response that tells that the effect of the request is there.
  abbrev pub IsDone : Reply → Type 0
  IsDone withheld = Unit {0}
  IsDone (reply status content) = status ≡ 200

  -- The retry shows the same document as the response that it repeats, where there was one.
  abbrev pub Agrees : Reply → Json → Type 0
  Agrees withheld result = Unit {0}
  Agrees (reply status content) result = content ≡ json_content result

  recorded-IsDone :
      (block : Bool) (answer : Result ToolError (Effect × Bool))
      → IsDone (recorded block answer)
      → (e : Effect) × (created : Bool) × (answer ≡ ok (e, created))
        × Agrees (recorded block answer) e.result
  recorded-IsDone block (err payload_conflict) h = absurd (ground (arith, h))
  recorded-IsDone true (ok (e, true)) h = (e, true, refl, tt)
  recorded-IsDone true (ok (e, false)) h = (e, false, refl, refl)
  recorded-IsDone false (ok (e, true)) h = (e, true, refl, refl)
  recorded-IsDone false (ok (e, false)) h = (e, false, refl, refl)

  check_call-refusal :
      (decoded : Option Invocation) {r : Reply}
      → check_call lib decoded ≡ err r
      → (status : ℕ) × (content : ToolContent) × (r ≡ reply status content) × (400 ≤ status)
  unfolding check_call
  check_call-refusal none h = (400, message "invalid invocation", ground arith, omega arith)
  check_call-refusal (some call) h =
      elim (Bool-cases (str_eq call.idempotency_key "" || (call.payload.size == 0))) [
        | inl empty ↦ (400, message "invalid invocation", ground (arith, h, empty), omega arith)
        | inr full ↦ elim (Option-cases call.payload.document) [
          | inl invalid ↦
              (400, message "invalid invocation", ground (arith, h, full, invalid), omega arith)
          | inr (payload, valid) ↦ elim (Bool-cases (ltb max_payload_bytes call.payload.size)) [
            | inl large ↦ (
              413,
              message "payload too large",
              ground (arith, h, full, valid, large),
              omega arith,
            )
            | inr small ↦ elim (Option-cases (decode_payload lib payload)) [
              | inl bare ↦ (
                400,
                message "payload requires value",
                ground (arith, h, full, valid, small, bare),
                omega arith,
              )
              | inr (input, decoded) ↦ absurd (ground (arith, h, full, valid, small, decoded))
            ]
          ]
        ]
      ]

  -- After an invocation that was answered 200, or whose first response was withheld, and any
  -- further recorded requests, the same invocation, if its transaction is answered, is answered
  -- 200 with a document, the one that the first answer showed if there was one.
  pub invoke-retry :
      (decoded : Option Invocation) (later : List Request) (effects : Effects) {first : Reply}
      {effects' : Effects}
      → invoke lib jsonb_eq delivered decoded effects ≡ (first, effects')
      → IsDone first
      → (result : Json) × ((invoke lib jsonb_eq delivered decoded
            (record_all jsonb_eq later effects')).0
          ≡ reply 200 (json_content result))
        × Agrees first result
  unfolding invoke
  invoke-retry decoded later effects {first} {effects'} h done =
      elim (Result-cases (check_call lib decoded)) [
        | inr (r, refused_call) ↦
            let h' = rw (refused_call, invoke) at h in
            let (status, content, same, bad) = check_call-refusal decoded refused_call in
            let is : first ≡ reply status content = sym (ap (λ p. p.0) h') ∙ same in
            let no : status ≡ 200 = subst IsDone is done in absurd (omega (arith, no, bad))
        | inl ((request, block), checked) ↦
            let h' = rw (checked, invoke) at h in
            let stored : (record_effect jsonb_eq request effects).1 ≡ effects' = ap (λ p. p.1) h' in
            let said : recorded block (record_effect jsonb_eq request effects).0 ≡ first =
              ap (λ p. p.0) h' in
            let (e, created, answer, agrees) =
              recorded-IsDone block (record_effect jsonb_eq request effects).0
                (subst IsDone (sym said) done) in
            let (e', replayed, same) =
              record_effect-idempotent jsonb_eq request later request.result effects answer in
            let replayed' : (record_effect jsonb_eq request (record_all jsonb_eq later effects')).0
                ≡ ok (e', false) =
              rw (← stored) replayed in
            (
              e.result,
              rw (checked, invoke) (rw replayed' (rw same.result refl)),
              subst (λ r. Agrees r e.result) said agrees,
            )
      ]
