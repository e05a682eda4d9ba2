-- ===== src/Exchange/Trace.antt =====
-- The calls that an action of the connector makes: a network that keeps a log of them, and how the
-- logs of composed actions compose.
use hunter_fi.Base.{
  ◌≡◌, refl, ap, sym, ◌∙◌, ◌⊎◌, inl, inr, List, [], ◌∷◌, ◌++◌, map, Result, ok, err, Action,
  from_result, ◌>>=◌,
}
use hunter_fi.Exchange.Types.{ExchangeError}
use hunter_fi.Exchange.Requests.{
  Request, get_pool, quote, swap, deposit, deposit_from, withdraw, get_user_unused_balance,
  icrc1_transfer, icp_transfer, dip20_approve, ext_approve, icrc2_approve, icrc1_balance_of,
  account_balance, Network, Session,
}
use mathlib.Core.List.{append_assoc, append-nil}

pub data Method : Type 0 where
  getting_pool quoting swapping depositing depositing_from withdrawing : Method
  getting_unused transferring approving getting_balance : Method

abbrev pub method : Request → Method
method (get_pool _ _) = getting_pool
method (quote _ _) = quoting
method (swap _ _) = swapping
method (deposit _ _) = depositing
method (deposit_from _ _) = depositing_from
method (withdraw _ _) = withdrawing
method (get_user_unused_balance _ _) = getting_unused
method (icrc1_transfer _ _) = transferring
method (icp_transfer _) = transferring
method (dip20_approve _ _ _) = approving
method (ext_approve _ _ _) = approving
method (icrc2_approve _ _ _) = approving
method (icrc1_balance_of _ _) = getting_balance
method (account_balance _) = getting_balance

abbrev pub methods : List Request → List Method
methods = map method

abbrev pub Logged : Type 0 → Type 0
Logged W = List Request × W

abbrev pub logged_net : {W : Type 0} → Network W → Network (Logged W)
logged_net net = record {
  ask = λ q s. let (r, w) = net.ask q s.1 in (r, (s.0 ++ q ∷ [], w));
  now = λ s. net.now s.1;
}

abbrev pub logged : {W : Type 0} → Session W → Session (Logged W)
logged self = record {
  connector = self.connector;
  caller = self.caller;
  id = self.id;
  io = self.io;
  net = logged_net self.net;
}

-- An outcome that began with the log `log` has asked for the methods of `script`, in this order and
-- all of them, unless it is an error, which may end the script early.
pub record Follows {A W : Type 0} (log : List Request) (script : List Method)
    (out : Result ExchangeError A × Logged W) : Type 0 where
  pub asked : List Request
  pub rest : List Method
  pub logs : out.1.0 ≡ log ++ asked
  pub scripted : methods asked ++ rest ≡ script
  pub ended : (rest ≡ []) ⊎ ((e : ExchangeError) × (out.0 ≡ err e))

methods-append :
    (qs bs : List Request) (rest : List Method)
    → methods (qs ++ bs) ++ rest ≡ (methods qs ++ []) ++ (methods bs ++ rest)
methods-append [] bs rest = refl
methods-append (a ∷ qs) bs rest = ap (λ l. method a ∷ l) (methods-append qs bs rest)

methods-append_err :
    (qs : List Request) (rest y : List Method)
    → methods qs ++ (rest ++ y) ≡ (methods qs ++ rest) ++ y
methods-append_err [] rest y = refl
methods-append_err (a ∷ qs) rest y = ap (λ l. method a ∷ l) (methods-append_err qs rest y)

module _ {A B W : Type 0} where
  -- The outcome `out` of an action goes on with `f`.
  go_on :
      (log : List Request) (x y : List Method) (out : Result ExchangeError A × Logged W)
      (f : A → Action (Logged W) ExchangeError B)
      → Follows log x out
      → ((a : A) (s' : Logged W) → Follows s'.0 y (f a s'))
      → Follows {A = B} {W = W} log
          (x ++ y)
          (elim out.0 [ ok a ↦ f a out.1 | err e ↦ (err e, out.1) ])
  go_on log x y (ok a, s') f h g = all_asked h.ended (g a s')
    where
      all_asked :
          (h.rest ≡ []) ⊎ ((e : ExchangeError) × (ok a ≡ err e))
          → Follows s'.0 y (f a s')
          → Follows log (x ++ y) (f a s')
      all_asked (inl nil) k = record {
        asked = h.asked ++ k.asked;
        rest = k.rest;
        logs = k.logs ∙ ap (λ l. l ++ k.asked) h.logs ∙ append_assoc log h.asked k.asked;
        scripted = methods-append h.asked k.asked k.rest ∙ cc (h.scripted, k.scripted, nil);
        ended = k.ended;
      }
      all_asked (inr (_, wrong)) k = cc
  go_on log x y (err e, s') f h g = record {
    asked = h.asked;
    rest = h.rest ++ y;
    logs = h.logs;
    scripted = methods-append_err h.asked h.rest y ∙ ap (λ l. l ++ y) h.scripted;
    ended = inr (e, refl);
  }

  -- The script of a composed action is the first one's, then the second one's.
  pub >>=-Follows :
      {x y : List Method} {m : Action (Logged W) ExchangeError A}
      {f : A → Action (Logged W) ExchangeError B}
      → ((s : Logged W) → Follows s.0 x (m s))
      → ((a : A) (s : Logged W) → Follows s.0 y (f a s))
      → (s : Logged W) → Follows s.0 (x ++ y) ((m >>= f) s)
  >>=-Follows {x} {y} {m} {f} h g s = go_on s.0 x y (m s) f (h s) g

module _ {A W : Type 0} where
  -- An action that asks nothing.
  pub quiet-Follows : (r : Result ExchangeError A) (s : Logged W) → Follows s.0 [] (r, s)
  quiet-Follows r s = record {
    asked = [];
    rest = [];
    logs = sym (append-nil s.0);
    scripted = refl;
    ended = inl refl;
  }

  -- An action that asks once.
  pub asks-Follows :
      (q : Request) (log : List Request) (r : Result ExchangeError A) (w : W)
      → Follows log (method q ∷ []) (r, (log ++ q ∷ [], w))
  asks-Follows q log r w = record {
    asked = q ∷ [];
    rest = [];
    logs = refl;
    scripted = refl;
    ended = inl refl;
  }

module _ {A B W : Type 0} where
  pub from_result->>=-Follows :
      {y : List Method} {f : A → Action (Logged W) ExchangeError B} (r : Result ExchangeError A)
      → ((a : A) (s : Logged W) → Follows s.0 y (f a s))
      → (s : Logged W) → Follows s.0 y ((from_result r >>= f) s)
  from_result->>=-Follows r h = >>=-Follows (quiet-Follows r) h
