-- ===== src/Factory/System/Sound.antt =====
-- The well-formed states of the factory, and the changes that every handler is made of.
use hunter_fi.Base.{
  inr, inl, ltb, Bool-cases, ℕ, ◌≡◌, refl, Bool, true, false, Bool-cases, inl, inr, ltb, Result,
  Option, none, some, ok, err, arith, nat_eq,
}
use hunter_fi.Base.Dict.{NodupKeys, insert-NodupKeys}
use hunter_fi.Base.Keeps.{Keeps}
use hunter_fi.Common.Types.{Principal, DeploymentStatus}
use hunter_fi.Factory.Types.{
  of_id, DeploymentId, deployment_id_eq, DeploymentRecord, TransactionType, Message, Call, Factory,
  UserAccount,
}
use hunter_fi.Factory.State.{
  get_user_account, store_user_account, get_deployment_record, store_deployment_record,
  update_deployment_status, update_user_balance, record_transaction, recorded, credit, debit,
}
use hunter_fi.Factory.State.Accounts.{OwnersMatch, get_user_account-store}
use hunter_fi.Factory.State.Records.{
  with_status, IdsMatch, get_deployment_record-store, get_user_account_cong,
  get_deployment_record_cong, with_status,
}
use hunter_fi.Factory.Api.Admins.{IsGoverned}

-- Every account is stored under its owner, the records have unique keys and are stored under their
-- own ids, and the administrators form a set that is not empty and has no anonymous member.
pub record IsSound (s : Factory) : Type 0 where
  pub owners : OwnersMatch s
  pub ids : IdsMatch s
  pub unique : NodupKeys s.deployment_records
  pub governed : IsGoverned s

-- A change that leaves the accounts, the records and the administrators alone.
pub frame-IsSound :
    (s t : Factory)
    → t.user_accounts ≡ s.user_accounts
    → t.deployment_records ≡ s.deployment_records
    → t.admins ≡ s.admins
    → IsSound s
    → IsSound t
frame-IsSound s t a r p h = record {
  owners = λ u. ground (arith, h.owners u, get_user_account_cong t s u a);
  ids = λ id x e. h.ids id x (cc (get_deployment_record_cong t s id r));
  unique = rw r h.unique;
  governed = record {
    distinct = rw p h.governed.distinct;
    inhabited = rw p h.governed.inhabited;
    named = rw p h.governed.named;
  };
}

stored-ids :
    (r : DeploymentRecord) (s : Factory) → IdsMatch s → IdsMatch (store_deployment_record r s)
stored-ids r s h id x e = ground (arith, get_deployment_record-store id r s, h id x)

stored-owners :
    (a : UserAccount) (s : Factory) → OwnersMatch s → OwnersMatch (store_user_account a s)
stored-owners a s h u = ground (arith, get_user_account-store u a s, h u)

-- A record stored under its own id.
pub store_deployment_record-IsSound :
    (r : DeploymentRecord) (s : Factory) → IsSound s → IsSound (store_deployment_record r s)
unfolding store_deployment_record get_user_account
store_deployment_record-IsSound r s h = record {
  owners = h.owners;
  ids = stored-ids r s h.ids;
  unique = insert-NodupKeys r.deployment_id r s.deployment_records h.unique;
  governed = record {
    distinct = h.governed.distinct;
    inhabited = h.governed.inhabited;
    named = h.governed.named;
  };
}

pub store_user_account-IsSound :
    (a : UserAccount) (s : Factory) → IsSound s → IsSound (store_user_account a s)
unfolding store_user_account get_deployment_record
store_user_account-IsSound a s h = record {
  owners = stored-owners a s h.owners;
  ids = h.ids;
  unique = h.unique;
  governed = record {
    distinct = h.governed.distinct;
    inhabited = h.governed.inhabited;
    named = h.governed.named;
  };
}

pub recorded-Keeps :
    {E : Type 0} (c : Call) (u : Principal) (x : ℕ) (t : TransactionType) (d : Message)
    → Keeps {E = E} IsSound (recorded c u x t d)
unfolding record_transaction
recorded-Keeps c u x t d = record {
  keeps = λ s h. frame-IsSound s (record_transaction c u x t d s).1 refl refl refl h;
}

pub update_user_balance-Keeps :
    (c : Call) (u : Principal) (x : ℕ) (is_deposit : Bool)
    → Keeps IsSound (update_user_balance c u x is_deposit)
unfolding update_user_balance
update_user_balance-Keeps c u x true = record {
  keeps = λ s h. store_user_account-IsSound (credit c x (get_user_account u s)) s h;
}
update_user_balance-Keeps c u x false = record {
  keeps = λ s h. elim (Bool-cases (ltb (get_user_account u s).balance x)) [
    | inl short ↦ rw short h
    | inr covered ↦ rw covered (store_user_account-IsSound (debit x (get_user_account u s)) s h)
  ];
}

-- The change of a record that was looked up.
abbrev changed :
    Call
    → DeploymentId
    → DeploymentStatus
    → Option Principal
    → Option Message
    → Factory
    → Option DeploymentRecord
    → Result Message (Unit {0}) × Factory
changed c id status canister_id error_message s none =
    (err (of_id "Deployment record not found: {}" id), s)
changed c id status canister_id error_message s (some r) =
    (ok tt, store_deployment_record (with_status c status canister_id error_message r) s)

changed-IsSound :
    (c : Call) (id : DeploymentId) (status : DeploymentStatus) (canister_id : Option Principal)
    (error_message : Option Message) (found : Option DeploymentRecord) (s : Factory)
    → IsSound s
    → IsSound (changed c id status canister_id error_message s found).1
changed-IsSound c id status canister_id error_message none s h = h
changed-IsSound c id status canister_id error_message (some r) s h =
    store_deployment_record-IsSound (with_status c status canister_id error_message r) s h

pub update_deployment_status-Keeps :
    (c : Call) (id : DeploymentId) (status : DeploymentStatus) (canister_id : Option Principal)
    (error_message : Option Message)
    → Keeps IsSound (update_deployment_status c id status canister_id error_message)
unfolding update_deployment_status
update_deployment_status-Keeps c id status canister_id error_message = record {
  keeps =
      λ s h. changed-IsSound c id status canister_id error_message (get_deployment_record id s) s h;
}
