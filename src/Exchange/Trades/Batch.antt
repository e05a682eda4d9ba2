-- ===== src/Exchange/Trades/Batch.antt =====
-- Batches of trades, against the trades made one by one.
use hunter_fi.Base.{
  ok-injective, ◌≡◌, refl, sym, ap, ◌∙◌, Bool, true, false, ◌&&◌, List, [], ◌∷◌, ◌++◌, Result, ok,
  err, map_err, arith,
}
use mathlib.Core.List.{append_assoc, append-nil}
use hunter_fi.Exchange.Types.{
  TradeParams, TradeResult, ExchangeError, Detail, fmt, BatchTradeResult, transaction_failed, plain,
}
use hunter_fi.Exchange.Requests.{Session}
use hunter_fi.Exchange.Utils.{current_timestamp_secs}
use hunter_fi.Exchange.Trades.{execute_icpswap_trade, batch_loop, execute_batch_trade}

abbrev pub is_ok : {E A : Type 0} → Result E A → Bool
is_ok (ok _) = true
is_ok (err _) = false

abbrev pub all_ok : {E A : Type 0} → List (Result E A) → Bool
all_ok [] = true
all_ok (r ∷ rs) = is_ok r && all_ok rs

-- An error as its text.
abbrev pub printed : Result ExchangeError TradeResult → Result Detail TradeResult
printed = map_err fmt

and-false : (b : Bool) → (b && false) ≡ false
and-false true = refl
and-false false = refl

and-true : (b : Bool) → (b && true) ≡ b
and-true true = refl
and-true false = refl

module _ {W : Type 0} (self : Session W) where
  -- The trades one after the other, whatever their results.
  unfoldable pub trade_each : List TradeParams → W → List (Result Detail TradeResult) × W
  trade_each [] s = ([], s)
  trade_each (p ∷ ps) s =
      let (r, s') = execute_icpswap_trade self p s in
      let (rs, s'') = trade_each ps s' in (printed r ∷ rs, s'')

  abbrev packed :
      List (Result Detail TradeResult)
      → Bool
      → W
      → Result ExchangeError (List (Result Detail TradeResult) × Bool) × W
  packed rs b s = (ok (rs, b), s)

  -- What the loop gives when it has `results` and the flag, and the rest of the batch is `done`.
  abbrev looped :
      List (Result Detail TradeResult)
      → Bool
      → List (Result Detail TradeResult) × W
      → Result ExchangeError (List (Result Detail TradeResult) × Bool) × W
  looped results all_succeeded done =
      packed (results ++ done.0) (all_succeeded && all_ok done.0) done.1

  step :
      (r : Result ExchangeError TradeResult) (s : W) (ps : List TradeParams)
      (results : List (Result Detail TradeResult)) (all_succeeded : Bool)
      → ((rs : List (Result Detail TradeResult)) (b : Bool)
          → batch_loop self false ps rs b s ≡ looped rs b (trade_each ps s))
      → (elim r [
        | ok t ↦ batch_loop self false ps (results ++ ok t ∷ []) all_succeeded s
        | err e ↦ batch_loop self false ps (results ++ err (fmt e) ∷ []) false s
      ])
        ≡ looped results all_succeeded (printed r ∷ (trade_each ps s).0, (trade_each ps s).1)
  step (ok t) s ps results all_succeeded h =
      h (results ++ ok t ∷ []) all_succeeded
      ∙ ap (λ l. packed l (all_succeeded && all_ok (trade_each ps s).0) (trade_each ps s).1)
          (append_assoc results (ok t ∷ []) (trade_each ps s).0)
  step (err e) s ps results all_succeeded h =
      h (results ++ err (fmt e) ∷ []) false
      ∙ ap (λ l. packed l false (trade_each ps s).1)
          (append_assoc results (err (fmt e) ∷ []) (trade_each ps s).0)
      ∙ ap (λ b. packed (results ++ err (fmt e) ∷ (trade_each ps s).0) b (trade_each ps s).1)
          (sym (and-false all_succeeded))

  batch_loop-trade_each :
      (ps : List TradeParams) (results : List (Result Detail TradeResult)) (all_succeeded : Bool)
      (s : W)
      → batch_loop self false ps results all_succeeded s
        ≡ looped results all_succeeded (trade_each ps s)
  unfolding batch_loop trade_each
  batch_loop-trade_each [] results all_succeeded s = rw (append-nil results, and-true all_succeeded)
  batch_loop-trade_each (p ∷ ps) results all_succeeded s =
      step (execute_icpswap_trade self p s).0 (execute_icpswap_trade self p s).1 ps results
        all_succeeded (λ rs b. batch_loop-trade_each ps rs b (execute_icpswap_trade self p s).1)

  -- A batch that need not succeed is its trades one after the other: it has their results in
  -- order, and its flag says whether all of them are `Ok`.
  pub execute_batch_trade-each :
      (trades : List TradeParams) (s : W)
      → execute_batch_trade self (record { trades = trades; require_all_success = false }) s ≡ (
        ok (record {
          results = (trade_each trades s).0;
          all_succeeded = all_ok (trade_each trades s).0;
          timestamp = current_timestamp_secs (self.net.now (trade_each trades s).1);
        }),
        (trade_each trades s).1,
      )
  unfolding execute_batch_trade
  execute_batch_trade-each trades s = ground (arith, batch_loop-trade_each trades [] true s)

  -- What the loop over `ps`, from `s` on, gives when every trade must succeed and it is `Ok`.
  record AllOk (ps : List TradeParams) (results results' : List (Result Detail TradeResult))
      (b b' : Bool) (s s' : W) : Type 0 where
    flag : b' ≡ b
    listed : results' ≡ results ++ (trade_each ps s).0
    state : s' ≡ (trade_each ps s).1
    all : all_ok (trade_each ps s).0 ≡ true

  step_all :
      (r : Result ExchangeError TradeResult) (s s' : W) (ps : List TradeParams)
      (results results' : List (Result Detail TradeResult)) (b b' : Bool)
      → ((rs : List (Result Detail TradeResult))
          → batch_loop self true ps rs b s ≡ packed results' b' s'
          → AllOk ps rs results' b b' s s')
      → (elim r [
        | ok t ↦ batch_loop self true ps (results ++ ok t ∷ []) b s
        | err e ↦
            (err (transaction_failed (plain "Batch trade failed, one or more trades errored")), s)
      ])
        ≡ packed results' b' s'
      → (b' ≡ b)
        × (results' ≡ results ++ printed r ∷ (trade_each ps s).0)
        × (s' ≡ (trade_each ps s).1)
        × ((is_ok (printed r) && all_ok (trade_each ps s).0) ≡ true)
  step_all (ok t) s s' ps results results' b b' ih h =
      let k = ih (results ++ ok t ∷ []) h in
      (k.flag, k.listed ∙ append_assoc results (ok t ∷ []) (trade_each ps s).0, k.state, k.all)
  step_all (err e) s s' ps results results' b b' ih h = cc

  batch_loop-all :
      (ps : List TradeParams) (results results' : List (Result Detail TradeResult)) (b b' : Bool)
      (s s' : W)
      → batch_loop self true ps results b s ≡ packed results' b' s'
      → AllOk ps results results' b b' s s'
  unfolding batch_loop trade_each
  batch_loop-all [] results results' b b' s s' h = record {
    flag = cc;
    listed = cc (append-nil results);
    state = cc;
    all = refl;
  }
  batch_loop-all (p ∷ ps) results results' b b' s s' h =
      let (x, y, z, w) =
        step_all (execute_icpswap_trade self p s).0 (execute_icpswap_trade self p s).1 s' ps results
          results' b b'
          (λ rs. batch_loop-all ps rs results' b b' (execute_icpswap_trade self p s).1 s') h in
      record { flag = x; listed = y; state = z; all = w }

  closing :
      (out : Result ExchangeError (List (Result Detail TradeResult) × Bool) × W)
      (trades : List TradeParams) (s s' : W) (r : BatchTradeResult)
      → ((rs : List (Result Detail TradeResult)) (b : Bool) (w : W)
          → out ≡ packed rs b w
          → AllOk trades [] rs true b s w)
      → ◌≡◌ {A = Result ExchangeError BatchTradeResult × W}
          (elim out.0 [
            | ok p ↦ (
              ok (record {
                results = p.0;
                all_succeeded = p.1;
                timestamp = current_timestamp_secs (self.net.now out.1);
              }),
              out.1,
            )
            | err e ↦ (err e, out.1)
          ])
          (ok r, s')
      → (r.results ≡ (trade_each trades s).0)
        × (s' ≡ (trade_each trades s).1)
        × (all_ok r.results ≡ true)
        × (r.all_succeeded ≡ true)
  closing (ok (rs, b), w) trades s s' r all h =
      let k = all rs b w refl in
      let same = ok-injective (ap (λ o. o.0) h) in
      let listed = ap (λ x. x.results) (sym same) ∙ k.listed in
      (
        listed,
        ap (λ o. o.1) (sym h) ∙ k.state,
        ap all_ok listed ∙ k.all,
        ap (λ x. x.all_succeeded) (sym same) ∙ k.flag,
      )
  closing (err e, w) trades s s' r all h = cc

  -- A batch that must succeed and does has made its trades one after the other: it has their
  -- results in order, all of them are `Ok`, and its flag is set.
  pub execute_batch_trade-all :
      (trades : List TradeParams) (s s' : W) (r : BatchTradeResult)
      → execute_batch_trade self (record { trades = trades; require_all_success = true }) s
        ≡ (ok r, s')
      → (r.results ≡ (trade_each trades s).0)
        × (s' ≡ (trade_each trades s).1)
        × (all_ok r.results ≡ true)
        × (r.all_succeeded ≡ true)
  unfolding execute_batch_trade
  execute_batch_trade-all trades s s' r h =
      closing (batch_loop self true trades [] true s) trades s s' r
        (λ rs b w. batch_loop-all trades [] rs true b s w) h
