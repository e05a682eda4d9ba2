-- ===== src/Factory/Deployment/Request.antt =====
-- A deployment request: it charges the fee and stores a record, or it changes nothing.
use hunter_fi.Base.{
  ◌+◌, ◌%◌, ◌≤◌, ◌<◌, ◌≡◌, ◌≢◌, ◌⊎◌, inl, inr, none, some, ok, err, arith, if◌then◌else◌, ◌==◌,
  Result-cases, nat_eq,
}
use hunter_fi.Base.Words.{u64_max, u64_mod}
use hunter_fi.Base.Dict.{lookup-insert}
use hunter_fi.Common.Types.{Principal, self_hedging, strategy_type_eq, payment_received}
use hunter_fi.Common.Config.{StrategyConfig, validate, get_strategy_type}
use hunter_fi.Factory.Types.{
  DeploymentId, deployment_id_eq, Message, of_type, of_message, Bytes, DeploymentRecord,
  DeploymentRequest, Call, Factory,
}
use hunter_fi.Factory.State.{
  get_user_account, get_deployment_record, store_deployment_record, generate_deployment_id, debit,
  check_user_balance,
}
use hunter_fi.Factory.State.Accounts.{OwnersMatch, accounts_after}
use hunter_fi.Factory.State.Totals.{total_balance}
use hunter_fi.Factory.State.Records.{get_user_account_cong}
use hunter_fi.Factory.Payment.{process_balance_payment}
use hunter_fi.Factory.Payment.Balance.{
  paid, process_balance_payment_ok, paid-accounts, paid-total, paid_frame,
}
use hunter_fi.Factory.Deployment.{
  Codec, to_string, config_error, create_strategy_request, create_deployment_record,
}

module _ (codec : Codec) (c : Call) (config : StrategyConfig) (s : Factory) where
  purpose : Message
  purpose = of_type "Deployment fee for {:?} strategy" (get_strategy_type config)

  charged : Factory
  charged = paid c c.caller s.deployment_fee purpose s

  -- The id and the record that a request makes.
  abbrev pub new_id : DeploymentId
  new_id = record { timestamp = c.time; caller = c.caller; counter = s.deployment_id_counter }

  abbrev pub new_record : Bytes → DeploymentRecord
  new_record bytes = record {
    deployment_id = new_id;
    strategy_type = get_strategy_type config;
    owner = c.caller;
    fee_amount = s.deployment_fee;
    request_time = c.time;
    status = payment_received;
    canister_id = none;
    config_data = bytes;
    error_message = none;
    last_updated = c.time;
  }

  pub stored : Bytes → Factory
  stored bytes =
      store_deployment_record (new_record bytes)
        (record charged { deployment_id_counter = (s.deployment_id_counter + 1) % u64_mod })

  -- What a request requires.
  pub record IsAccepted : Type 0 where
    pub valid : validate config ≡ ok tt
    pub supported : get_strategy_type config ≡ self_hedging
    pub fee_positive : 1 ≤ s.deployment_fee
    pub fee_bounded : s.deployment_fee ≤ u64_max
    pub covered : s.deployment_fee ≤ (get_user_account c.caller s).balance

  pub create_strategy_request_ok :
      (bytes : Bytes)
      → OwnersMatch s
      → IsAccepted
      → codec.encode config ≡ ok bytes
      → create_strategy_request codec c config s ≡ (
        ok (record {
          deployment_id = new_id;
          fee_amount = s.deployment_fee;
          strategy_type = get_strategy_type config;
        }),
        stored bytes,
      )
  unfolding create_strategy_request stored charged purpose
  create_strategy_request_ok bytes m a e = ground (
    arith,
    a,
    process_balance_payment_ok c c.caller s.deployment_fee purpose s m a.fee_positive a.fee_bounded
        a.covered,
    paid_frame c c.caller s.deployment_fee purpose s,
  )

  -- What an accepted request leaves behind: the state `t`, in which the caller has paid the fee and
  -- the new record is stored.
  pub record IsCharged (bytes : Bytes) (t : Factory) : Type 0 where
    pub accounts :
        (v : Principal)
        → get_user_account v t
          ≡ accounts_after s c.caller (debit s.deployment_fee (get_user_account c.caller s)) v
    pub records :
        (j : DeploymentId)
        → get_deployment_record j t
          ≡ (if j == new_id then some (new_record bytes) else get_deployment_record j s)
    pub total : total_balance t + s.deployment_fee ≡ total_balance s
    pub same_admins : t.admins ≡ s.admins
    pub same_deployment_fee : t.deployment_fee ≡ s.deployment_fee

  pub stored-IsCharged :
      (bytes : Bytes) → OwnersMatch s → IsAccepted → IsCharged bytes (stored bytes)
  unfolding stored charged store_deployment_record get_deployment_record
  stored-IsCharged bytes m a = record {
    accounts = λ v. ground (
      arith,
      paid-accounts c c.caller s.deployment_fee purpose s v m a.covered,
      get_user_account_cong (stored bytes) charged v,
    );
    records = λ j. ground (
      arith,
      lookup-insert j new_id (new_record bytes) charged.deployment_records,
      paid_frame c c.caller s.deployment_fee purpose s,
    );
    total = ground (arith, paid-total c c.caller s.deployment_fee purpose s m a.covered);
    same_admins = ground (arith, paid_frame c c.caller s.deployment_fee purpose s);
    same_deployment_fee = ground (arith, paid_frame c c.caller s.deployment_fee purpose s);
  }

  -- With every account stored under its owner: a request whose config is valid, of the
  -- self-hedging type and encodable, and whose positive `u64` fee the caller's balance covers,
  -- succeeds: it takes the fee from the caller's account and from nobody else's, the sum of the
  -- balances falls by the fee, and the one record that it writes, under the returned id, awaits
  -- deployment.
  pub create_strategy_request_accepted :
      (bytes : Bytes)
      → OwnersMatch s
      → IsAccepted
      → codec.encode config ≡ ok bytes
      → (t : Factory) × (create_strategy_request codec c config s ≡ (
        ok (record {
          deployment_id = new_id;
          fee_amount = s.deployment_fee;
          strategy_type = get_strategy_type config;
        }),
        t,
      ))
        × IsCharged bytes t
  create_strategy_request_accepted bytes m a e =
      (stored bytes, create_strategy_request_ok bytes m a e, stored-IsCharged bytes m a)

  -- A request with an invalid config, with a strategy type that has no module, with a zero fee or
  -- with a fee that the balance does not cover is an error, and changes nothing.
  pub create_strategy_request_refused :
      (request : DeploymentRequest)
      → (validate config ≢ ok tt)
        ⊎ (get_strategy_type config ≢ self_hedging)
        ⊎ (s.deployment_fee ≡ 0)
        ⊎ ((get_user_account c.caller s).balance < s.deployment_fee)
      → ((create_strategy_request codec c config s).0 ≢ ok request)
        × ((create_strategy_request codec c config s).1 ≡ s)
  unfolding create_strategy_request process_balance_payment check_user_balance
  create_strategy_request_refused request h = elim (Result-cases (validate config)) [
    | inl (u, valid) ↦ ground arith
    | inr (e, invalid) ↦ ground arith
  ]

  -- With every account stored under its owner: a request that would be accepted but whose config
  -- does not encode is an error found after the payment: the sum of the balances has fallen by the
  -- fee, and no record is stored.
  pub create_strategy_request_unencoded :
      (e : Message)
      → OwnersMatch s
      → IsAccepted
      → codec.encode config ≡ err e
      → ((create_strategy_request codec c config s).0
          ≡ err (to_string (config_error (of_message "Failed to serialize config: {}" e))))
        × (total_balance (create_strategy_request codec c config s).1 + s.deployment_fee
            ≡ total_balance s)
        × ((create_strategy_request codec c config s).1.deployment_records ≡ s.deployment_records)
  unfolding create_strategy_request charged purpose create_deployment_record generate_deployment_id
      to_string
  create_strategy_request_unencoded e m a bad = ground (
    arith,
    a,
    process_balance_payment_ok c c.caller s.deployment_fee purpose s m a.fee_positive a.fee_bounded
        a.covered,
    paid-total c c.caller s.deployment_fee purpose s m a.covered,
    paid_frame c c.caller s.deployment_fee purpose s,
  )
