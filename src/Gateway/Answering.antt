-- ===== src/Gateway/Answering.antt =====
-- When a handled command of internal/gateway/server.go is answered with ok = true.
use vtt_platform.Prelude.{ℕ, String, Bool, ◌≡◌, ◌↔◌, refl, ap, subst, Option, none, some, List}
use vtt_platform.Prelude.Int.{ℤ, pos}
use vtt_platform.Contract.Event.{Envelope}
use vtt_platform.Store.Log.{Database}
use vtt_platform.Campaign.Append.{Campaign, AppendResult, AppendError, append_envelopes}
use vtt_platform.Gateway.Handle.{Handled, refuses, hands_over, elsewhere}
use vtt_platform.Gateway.Answer.{Answer, ok, answer_of, settle}

module _ (sql : Database) where
  -- The append succeeded, with `first` for the first sequence, and left `after`.
  abbrev pub IsAppended : AppendResult sql → ℤ → Campaign sql → Type 0
  IsAppended r first after = (r.error ≡ none) × (r.first ≡ first) × (r.campaign ≡ after)

  abbrev number_of : Answer → ℤ
  number_of (ok n) = n
  number_of _ = pos 0

  pair : {n m : ℤ} {c d : Campaign sql} → n ≡ m → c ≡ d → Path (ℤ × Campaign sql) (n, c) (m, d)
  pair e f = cc

  same : (xs ys : List Envelope) → hands_over ys ≡ hands_over xs → xs ≡ ys
  same xs ys e = cc

  answered :
      (error : Option AppendError) (n first : ℤ) (c after : Campaign sql)
      → Path (Answer × Campaign sql) (answer_of error n, c) (ok first, after)
        ↔ ((error ≡ none) × (n ≡ first) × (c ≡ after))
  answered none n first c after = (
    λ q. (
      refl,
      ap number_of (ap (λ (x : Answer × Campaign sql). x.0) q),
      ap (λ (x : Answer × Campaign sql). x.1) q,
    ),
    λ (_, e, f). ap (λ (x : ℤ × Campaign sql). (ok x.0, x.1)) (pair e f),
  )
  answered (some x) n first c after =
      (λ q. absurd (cc (ap (λ (x : Answer × Campaign sql). x.0) q)), λ (e, _, _). cc)

  pub settle-ok :
      (session_ids : ℕ → Option String) (fan_out_fails : Bool) (c after : Campaign sql)
      (h : Handled) (first : ℤ)
      → (settle sql session_ids fan_out_fails c h ≡ (ok first, after)) ↔ (
          (envs : List Envelope) × (h ≡ hands_over envs)
          × IsAppended (append_envelopes sql session_ids fan_out_fails c envs) first after)
  unfolding settle
  settle-ok session_ids fan_out_fails c after (refuses r) first =
      (λ q. absurd (cc (ap (λ (x : Answer × Campaign sql). x.0) q)), λ (envs, e, _). cc)
  settle-ok session_ids fan_out_fails c after (hands_over envs) first =
      let r = append_envelopes sql session_ids fan_out_fails c envs in
      (
        λ q. (envs, refl, (answered r.error r.first first r.campaign after).0 q),
        λ (x, e, a). (answered r.error r.first first r.campaign after).1 (
            subst
              (λ (l : List Envelope).
                IsAppended (append_envelopes sql session_ids fan_out_fails c l) first after)
              (same x envs e) a),
      )
  settle-ok session_ids fan_out_fails c after elsewhere first =
      (λ q. absurd (cc (ap (λ (x : Answer × Campaign sql). x.0) q)), λ (envs, e, _). cc)
