-- ===== src/Factory/Deployment/Segments.antt =====
-- One segment of an execution on a stored record: it advances the status, deploys, or refunds.
use mathlib.Core.Path.{subst}
use hunter_fi.Base.{
  ◌<◌, ◌⊎◌, ◌≤◌, sym, ℕ, ◌≡◌, inl, inr, refl, Option, none, some, Result, ok, err, arith, ◌==◌, ltb,
  Bool-cases, Result-cases,
}
use hunter_fi.Common.Types.{
  Principal, DeploymentStatus, canister_created, code_installed, self_hedging, strategy_type_eq,
}
use hunter_fi.Factory.Types.{
  DeploymentId, deployment_id_eq, Message, DeploymentRecord, Call, Factory,
}
use hunter_fi.Factory.State.Accounts.{OwnersMatch}
use hunter_fi.Factory.Payment.{Rejection}
use hunter_fi.Factory.Deployment.{
  Codec, Progress, waiting, finished, failure, creating, installing, initializing, decode_config,
  start_deployment, resume_creating, resume_installing, creation_cycles, to_string, stop_with,
  short_of_cycles, DeploymentError, call_failed, canister_creation_failed, code_installation_failed,
  initialization_failed, module_not_found,
}
use hunter_fi.Factory.Deployment.Failure.{
  IsRefunded, IsRefundable, handle_deployment_failure_lem, refunded_state,
  refunded_state-IsRefunded,
}
use hunter_fi.Factory.Deployment.Advance.{
  Settles, moved, moved_record, moved_ok, moved-IsRefundable, moved-IsAdvanced, moved-OwnersMatch,
  moved-IsRefunded, stays-IsAdvanced,
}

pub stop_with_lem :
    (c : Call) (id : DeploymentId) (canister_id : Option Principal) (e : DeploymentError)
    (r : DeploymentRecord) (s : Factory)
    → OwnersMatch s
    → IsRefundable id r s
    → stop_with c id canister_id e s
      ≡ (ok (finished (failure (to_string e))), refunded_state c id canister_id (to_string e) r s)
stop_with_lem c id canister_id e r s o h =
    ground (arith, handle_deployment_failure_lem c id canister_id (to_string e) r s o h)

-- A failure settles by a refund.
pub stop_with-Settles :
    (c : Call) (id : DeploymentId) (canister_id : Option Principal) (e : DeploymentError)
    (r : DeploymentRecord) (s : Factory)
    → OwnersMatch s
    → IsRefundable id r s
    → (k : ℕ) → Settles c id r s k (stop_with c id canister_id e s)
stop_with-Settles c id canister_id e r s o h k =
    subst (Settles c id r s k) (sym (stop_with_lem c id canister_id e r s o h))
      (refunded_state-IsRefunded c id canister_id (to_string e) r s o h)

module _ (c : Call) (id : DeploymentId) (r : DeploymentRecord) (s : Factory) (o : OwnersMatch s)
    (h : IsRefundable id r s) where
  pub settled_by :
      (k : ℕ) (p q : Result Message Progress × Factory)
      → p ≡ q
      → Settles c id r s k q
      → Settles c id r s k p
  settled_by k p q e st = subst (Settles c id r s k) (sym e) st

  pub start_deployment-Settles : Settles c id r s 3 (start_deployment c id s)
  unfolding start_deployment
  start_deployment-Settles = elim (Bool-cases (ltb c.cycles creation_cycles)) [
    | inl short ↦
        settled_by 3 (start_deployment c id s) (stop_with c id none (short_of_cycles c) s)
          (ground (arith, h.known)) (stop_with-Settles c id none (short_of_cycles c) r s o h 3)
    | inr enough ↦
        settled_by 3 (start_deployment c id s) (ok (waiting (creating id r)), s)
          (ground (arith, h.known)) (stays-IsAdvanced id r s h, refl, omega arith)
  ]

  -- With every account stored under its owner: the first segment on a stored record with a
  -- positive `u64` fee, whatever its status, asks for a new canister and changes nothing, if there
  -- are the cycles for it; otherwise it fails, with the fee refunded once and the other
  -- accounts, the administrators and the other records as before. It never ends in an error.
  pub start_deployment-creates :
      ((creation_cycles ≤ c.cycles) × (start_deployment c id s ≡ (ok (waiting (creating id r)), s)))
      ⊎ ((c.cycles < creation_cycles)
          × (t : Factory) × (start_deployment c id s
              ≡ (ok (finished (failure (to_string (short_of_cycles c)))), t))
          × IsRefunded c id r s t)
  unfolding start_deployment
  start_deployment-creates = elim (Bool-cases (ltb c.cycles creation_cycles)) [
    | inl short ↦ inr (
      ground arith,
      refunded_state c id none (to_string (short_of_cycles c)) r s,
      ground (arith, h.known, stop_with_lem c id none (short_of_cycles c) r s o h),
      refunded_state-IsRefunded c id none (to_string (short_of_cycles c)) r s o h,
    )
    | inr enough ↦ inl (ground arith, ground (arith, h.known))
  ]

  -- After an advance, a failure is a refund of the record as it was before.
  pub stop_after_advance :
      (k : ℕ) (status : DeploymentStatus) (cid : Principal) (e : DeploymentError)
      → Settles c id r s k (stop_with c id (some cid) e (moved c id status cid r s h))
  stop_after_advance k status cid e =
      let s1 = moved c id status cid r s h in
      let r1 = moved_record c id status cid r s h in
      let o1 = moved-OwnersMatch c id status cid r s h o in
      let h1 = moved-IsRefundable c id status cid r s h in
      subst (Settles c id r s k) (sym (stop_with_lem c id (some cid) e r1 s1 o1 h1)) (
        moved-IsRefunded c id status cid r s h (refunded_state c id (some cid) (to_string e) r1 s1)
          (refunded_state-IsRefunded c id (some cid) (to_string e) r1 s1 o1 h1))

  -- With every account stored under its owner: the second segment on a stored record with a
  -- positive `u64` fee, whatever the reply to `create_canister` and whatever record it has read,
  -- marks the record as created and awaits the installation of its code, or refunds the fee once.
  -- It never ends in an error.
  pub resume_creating-Settles :
      (q : DeploymentRecord) (reply : Result Rejection Principal)
      → Settles c id r s 2 (resume_creating c id q reply s)
  unfolding resume_creating moved-IsAdvanced
  resume_creating-Settles q (err e) =
      stop_with-Settles c id none (canister_creation_failed (call_failed e)) r s o h 2
  resume_creating-Settles q (ok cid) = elim (Bool-cases (q.strategy_type == self_hedging)) [
    | inl real ↦
        settled_by 2 (resume_creating c id q (ok cid) s)
          (ok (waiting (installing id q cid)), moved c id canister_created cid r s h)
          (ground (arith, moved_ok c id canister_created cid r s h))
          (moved-IsAdvanced c id canister_created cid r s h (λ e. cc), (refl, refl), omega arith)
    | inr mock ↦
        settled_by 2 (resume_creating c id q (ok cid) s)
          (stop_with c id (some cid) (module_not_found q.strategy_type)
            (moved c id canister_created cid r s h))
          (ground (arith, moved_ok c id canister_created cid r s h))
          (stop_after_advance 2 canister_created cid (module_not_found q.strategy_type))
  ]

  module _ (codec : Codec) where
    -- With every account stored under its owner: the third segment on a stored record with a
    -- positive `u64` fee, whatever the reply to `install_code` and whatever record it has read,
    -- marks the record as installed and awaits the initialiser, or refunds the fee once. It never
    -- ends in an error.
    pub resume_installing-Settles :
        (q : DeploymentRecord) (cid : Principal) (reply : Result Rejection (Unit {0}))
        → Settles c id r s 1 (resume_installing codec c id q cid reply s)
    unfolding resume_installing moved-IsAdvanced
    resume_installing-Settles q cid (err e) =
        stop_with-Settles c id (some cid) (code_installation_failed (call_failed e)) r s o h 1
    resume_installing-Settles q cid (ok u) =
        elim (Result-cases (decode_config codec q.strategy_type q.config_data)) [
          | inl (config, decoded) ↦
              settled_by 1 (resume_installing codec c id q cid (ok u) s)
                (ok (waiting (initializing id q cid config)), moved c id code_installed cid r s h)
                (ground (arith, decoded, moved_ok c id code_installed cid r s h))
                (
                  moved-IsAdvanced c id code_installed cid r s h (λ e. cc),
                  (refl, refl),
                  omega arith,
                )
          | inr (m, wrong) ↦
              settled_by 1 (resume_installing codec c id q cid (ok u) s)
                (stop_with c id (some cid) (initialization_failed m)
                  (moved c id code_installed cid r s h))
                (ground (arith, wrong, moved_ok c id code_installed cid r s h))
                (stop_after_advance 1 code_installed cid (initialization_failed m))
        ]
