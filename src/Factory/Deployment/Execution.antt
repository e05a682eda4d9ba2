-- ===== src/Factory/Deployment/Execution.antt =====
-- A whole execution: it ends, deployed or refunded.
use mathlib.Core.Path.{subst}
use hunter_fi.Base.{ℕ, suc, sym, ◌≤◌, ◌≡◌, ◌∙◌, Result, ok, err, arith}
use hunter_fi.Factory.Types.{DeploymentId, DeploymentRecord, Message, Call, Factory}
use hunter_fi.Factory.State.Accounts.{OwnersMatch}
use hunter_fi.Factory.State.Records.{get_user_account_cong}
use hunter_fi.Factory.Deployment.{
  Codec, Replies, Progress, waiting, finished, success, failure, Stage, creating, installing,
  initializing, start_deployment, resume_creating, resume_installing, resume_initializing, resume,
  execute_deployment,
}
use hunter_fi.Factory.Deployment.Failure.{IsRefundable, IsRefunded}
use hunter_fi.Factory.Deployment.Advance.{
  IsAdvanced, IsAdvanced-trans, Settles, AwaitsIn, remaining,
}
use hunter_fi.Factory.Deployment.Segments.{
  start_deployment-Settles, resume_creating-Settles, resume_installing-Settles,
}
use hunter_fi.Factory.Deployment.Finish.{resume_initializing-Settles}

-- An outcome of a whole execution or of a part of it, for a refund in any of its messages.
abbrev pub Ends :
    DeploymentId → DeploymentRecord → Factory → ℕ → Result Message Progress × Factory → Type 0
Ends id r s k p = (c : Call) × Settles c id r s k p

advanced-IsRefundable :
    (id : DeploymentId) (r : DeploymentRecord) (s t : Factory) (a : IsAdvanced id r s t)
    → IsRefundable id r s
    → IsRefundable id a.new_record t
advanced-IsRefundable id r s t a h = record {
  known = a.found;
  own = a.same_id ∙ h.own;
  fee_positive = ground (arith, a.same_fee, h.fee_positive);
  fee_bounded = ground (arith, a.same_fee, h.fee_bounded);
}

advanced-OwnersMatch :
    (id : DeploymentId) (r : DeploymentRecord) (s t : Factory)
    → IsAdvanced id r s t
    → OwnersMatch s
    → OwnersMatch t
advanced-OwnersMatch id r s t a o u =
    ground (arith, o u, get_user_account_cong t s u a.same_accounts)

-- A refund after an advance is a refund.
advanced-IsRefunded :
    (c : Call) (id : DeploymentId) (r : DeploymentRecord) (s t u : Factory)
    (a : IsAdvanced id r s t)
    → IsRefundable id r s
    → IsRefunded c id a.new_record t u
    → IsRefunded c id r s u
advanced-IsRefunded c id r s t u a h g =
    let (x, found, status, owner, fee, own) = g.record_refunded in
    record {
      record_refunded = (x, found, status, owner ∙ a.same_owner, fee ∙ a.same_fee, own);
      other_records = λ j ne. g.other_records j ne ∙ a.other_records j ne;
      accounts = λ v. ground (
        arith,
        g.accounts v,
        a.same_owner,
        a.same_fee,
        a.same_accounts,
        get_user_account_cong t s v a.same_accounts,
        get_user_account_cong t s r.owner a.same_accounts,
      );
      same_admins = g.same_admins ∙ a.same_admins;
      same_deployment_fee = g.same_deployment_fee ∙ a.same_deployment_fee;
    }

module _ (id : DeploymentId) (r : DeploymentRecord) (s : Factory) (h : IsRefundable id r s) where
  -- What a later segment settles, it settles from the start.
  Settles-after :
      (c : Call) (t : Factory) (a : IsAdvanced id r s t) (k : ℕ)
      (p : Result Message Progress × Factory)
      → Settles c id a.new_record t k p
      → Settles c id r s k p
  unfolding IsAdvanced-trans
  Settles-after c t a k (ok (waiting stage), u) (b, w, n) = (IsAdvanced-trans id r s t u a b, w, n)
  Settles-after c t a k (ok (finished (success cid)), u) (b, st, at, m, got, same) =
      (IsAdvanced-trans id r s t u a b, st, at, m, got, same)
  Settles-after c t a k (ok (finished (failure m)), u) g = advanced-IsRefunded c id r s t u a h g
  Settles-after c t a k (err e, u) g = g

  Settles-mono :
      (c : Call) (k l : ℕ) (p : Result Message Progress × Factory)
      → k ≤ l
      → Settles c id r s k p
      → Settles c id r s l p
  Settles-mono c k l (ok (waiting stage), u) le (b, w, n) = (b, w, ground arith)
  Settles-mono c k l (ok (finished (success cid)), u) le g = g
  Settles-mono c k l (ok (finished (failure m)), u) le g = g
  Settles-mono c k l (err e, u) le g = g

  module _ (o : OwnersMatch s) (codec : Codec) (w : Replies) where
    -- What a reply leads to, in the state in which it arrives.
    resume-Ends :
        (c : Call) (t : Factory) (a : IsAdvanced id r s t) (k : ℕ) (stage : Stage)
        → AwaitsIn id stage a.new_record.status
        → remaining stage ≤ suc k
        → Ends id r s k (resume codec w (waiting stage) t)
    unfolding resume
    resume-Ends c t a k (creating j q) own le = (
      w.created_call,
      Settles-mono w.created_call 2 k (resume_creating w.created_call j q w.created t)
          (ground arith)
          (Settles-after w.created_call t a 2 (resume_creating w.created_call j q w.created t) (
            subst
              (λ i.
                Settles w.created_call id a.new_record t 2
                  (resume_creating w.created_call i q w.created t))
              (sym own)
              (resume_creating-Settles w.created_call id a.new_record t
                (advanced-OwnersMatch id r s t a o) (advanced-IsRefundable id r s t a h) q
                w.created))),
    )
    resume-Ends c t a k (installing j q cid) own le = (
      w.installed_call,
      Settles-mono w.installed_call 1 k
          (resume_installing codec w.installed_call j q cid w.installed t) (ground arith)
          (Settles-after w.installed_call t a 1
            (resume_installing codec w.installed_call j q cid w.installed t)
            (subst
              (λ i.
                Settles w.installed_call id a.new_record t 1
                  (resume_installing codec w.installed_call i q cid w.installed t))
              (sym own.0)
              (resume_installing-Settles w.installed_call id a.new_record t
                (advanced-OwnersMatch id r s t a o) (advanced-IsRefundable id r s t a h) codec q cid
                w.installed))),
    )
    resume-Ends c t a k (initializing j q cid config) own le = (
      w.initialized_call,
      Settles-mono w.initialized_call 0 k
          (resume_initializing codec w.initialized_call j q cid w.initialized_reply t)
          (ground arith)
          (Settles-after w.initialized_call t a 0
            (resume_initializing codec w.initialized_call j q cid w.initialized_reply t)
            (subst
              (λ i.
                Settles w.initialized_call id a.new_record t 0
                  (resume_initializing codec w.initialized_call i q cid w.initialized_reply t))
              (sym own.0)
              (resume_initializing-Settles w.initialized_call id a.new_record t
                (advanced-OwnersMatch id r s t a o) (advanced-IsRefundable id r s t a h) cid codec q
                w.initialized_reply))),
    )

    abbrev next : Result Message Progress × Factory → Result Message Progress × Factory
    next (ok p, t) = resume codec w p t
    next (err m, t) = (err m, t)

    next-Ends :
        (k : ℕ) (p : Result Message Progress × Factory)
        → Ends id r s (suc k) p
        → Ends id r s k (next p)
    unfolding resume
    next-Ends k (ok (waiting stage), t) (c, (a, own, le)) = resume-Ends c t a k stage own le
    next-Ends k (ok (finished (success cid)), t) (c, g) = (c, g)
    next-Ends k (ok (finished (failure m)), t) (c, g) = (c, g)
    next-Ends k (err m, t) (c, g) = (c, g)

    pub execute_deployment-next :
        (c : Call)
        → execute_deployment codec c w id s ≡ next (next (next (start_deployment c id s)))
    unfolding execute_deployment resume
    execute_deployment-next c = ground arith

    -- With every account stored under its owner: an execution of a stored record with a positive
    -- `u64` fee, with no other message in between, never ends in an error and never awaits a
    -- fourth reply, whatever the three replies are: either the record is deployed, its canister is
    -- the one that the caller gets, and the metadata under it is about it; or the record is
    -- refunded and its owner is credited with the fee once. In both cases all other records and
    -- accounts, the fee and the administrators are unchanged.
    pub execute_deployment-Ends : (c : Call) → Ends id r s 0 (execute_deployment codec c w id s)
    execute_deployment-Ends c = subst (Ends id r s 0) (sym (execute_deployment-next c)) (
        next-Ends 0 (next (next (start_deployment c id s))) (
          next-Ends 1 (next (start_deployment c id s))
            (next-Ends 2 (start_deployment c id s) (c, start_deployment-Settles c id r s o h))))
