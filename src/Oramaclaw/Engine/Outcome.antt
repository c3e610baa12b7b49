-- ===== src/Oramaclaw/Engine/Outcome.antt =====
-- The result of an apply of src/oramaclaw/engine.py, its journal record, and what each final state says.
use orama_system.Base.{
  ℕ, String, ◌≡◌, ap, Bool, true, ◌||◌, Option, none, some, List, [], ◌∷◌, map, is_nonempty, refl,
  false,
}
use orama_system.Oramaclaw.Types.{
  Conflict, TxState, committed, auto_woven, conflicted, needs_input, gateway_unavailable, failed,
  ControlResult, ControlManifest,
}
use orama_system.Oramaclaw.Store.{ControlStore, JournalRecord, last_transaction}
use orama_system.Oramaclaw.Store.Journal.{last_transaction-append_journal}
use orama_system.Oramaclaw.Engine.Transport.{Failure, Env, raised}
use orama_system.Oramaclaw.Engine.Walk.{Pass}
use orama_system.Oramaclaw.Engine.Rule.{Rule, apply_manifest_rule}
use orama_system.Oramaclaw.Engine.{
  determine_state, conflict_id, log, finish, settle, apply_manifest,
}

-- What the result and a journal record have in common.
pub record Summary : Type 0 where
  pub transaction_id : String
  pub state : TxState
  pub applied : List String
  pub auto_woven : List String
  pub conflicts : List String

abbrev pub of_result : ControlResult → Summary
of_result r = record {
  transaction_id = r.transaction_id;
  state = r.state;
  applied = r.applied;
  auto_woven = r.auto_woven;
  conflicts = map conflict_id r.conflicts;
}

abbrev pub of_record : JournalRecord → Summary
of_record j = record {
  transaction_id = j.transaction_id;
  state = j.state;
  applied = j.applied;
  auto_woven = j.auto_woven;
  conflicts = j.conflicts;
}

abbrev pub summarised : Option JournalRecord → Option Summary
summarised none = none
summarised (some j) = some (of_record j)

abbrev IsLogged : ControlResult → ControlStore → Type 0
IsLogged r s = summarised (last_transaction s) ≡ some (of_result r)

-- What a final state promises of the result.
pub data TellsTrue (applied woven : List String) (conflicts : List Conflict)
    : TxState → Type 0 where
  is_committed : woven ≡ [] → conflicts ≡ [] → TellsTrue applied woven conflicts committed
  is_woven :
      is_nonempty woven ≡ true → conflicts ≡ [] → TellsTrue applied woven conflicts auto_woven
  is_conflicted :
      is_nonempty conflicts ≡ true
      → (is_nonempty applied || is_nonempty woven) ≡ true
      → TellsTrue applied woven conflicts conflicted
  asks_input :
      is_nonempty conflicts ≡ true
      → applied ≡ []
      → woven ≡ []
      → TellsTrue applied woven conflicts needs_input
  is_unavailable :
      applied ≡ []
      → woven ≡ []
      → conflicts ≡ []
      → TellsTrue applied woven conflicts gateway_unavailable
  is_failed : applied ≡ [] → woven ≡ [] → conflicts ≡ [] → TellsTrue applied woven conflicts failed

abbrev pub IsTrue : ControlResult → Type 0
IsTrue r = TellsTrue r.applied r.auto_woven r.conflicts r.state

pub determine_state-TellsTrue :
    (a w : List String) (c : List Conflict) (u : Bool) → TellsTrue a w c (determine_state a w c u)
unfolding determine_state
determine_state-TellsTrue [] [] [] true = is_unavailable refl refl refl
determine_state-TellsTrue [] [] [] false = is_committed refl refl
determine_state-TellsTrue (x ∷ a) [] [] true = is_committed refl refl
determine_state-TellsTrue (x ∷ a) [] [] false = is_committed refl refl
determine_state-TellsTrue [] (x ∷ w) [] true = is_woven refl refl
determine_state-TellsTrue [] (x ∷ w) [] false = is_woven refl refl
determine_state-TellsTrue (y ∷ a) (x ∷ w) [] true = is_woven refl refl
determine_state-TellsTrue (y ∷ a) (x ∷ w) [] false = is_woven refl refl
determine_state-TellsTrue [] [] (x ∷ c) u = asks_input refl refl refl
determine_state-TellsTrue (y ∷ a) w (x ∷ c) u = is_conflicted refl refl
determine_state-TellsTrue [] (y ∷ w) (x ∷ c) u = is_conflicted refl refl

abbrev AnyPass : Pass → Type 0
AnyPass p = Unit

module _ (env : Env) where
  LoggedRule : (m : ControlManifest) → Rule env m IsLogged AnyPass
  unfolding finish log settle
  LoggedRule m = record {
    walked = λ started live w n s. tt;
    journalled = λ p h. tt;
    emptied = λ p w h. tt;
    finished = λ u p h. ap summarised (last_transaction-append_journal _ p.store);
    excepted = λ f n s. ap summarised (last_transaction-append_journal _ s);
  }

  -- Whatever the gateway does, the last journal record after an apply has the transaction, the final state,
  -- the applied keys, the auto-woven fields and the conflict ids of the result.
  pub apply_manifest-IsLogged :
      (m : ControlManifest) (s : ControlStore)
      → let (result, s') = apply_manifest env m s in
        summarised (last_transaction s') ≡ some (of_result result)
  apply_manifest-IsLogged m s = apply_manifest_rule env m IsLogged AnyPass (LoggedRule m) s

  finish-IsTrue : (u : Bool) (p : Pass) → IsTrue (settle env (finish env u p)).0
  unfolding finish settle
  finish-IsTrue u p = determine_state-TellsTrue p.applied p.auto_woven p.conflicts u

  excepted-IsTrue :
      (f : Failure) (n : ℕ) (s : ControlStore)
      → IsTrue (settle env (record { reply = raised f; reads = n; store = s })).0
  unfolding settle
  excepted-IsTrue f n s = is_failed refl refl refl

  TrueRule : (m : ControlManifest) → Rule env m (λ r s. IsTrue r) AnyPass
  TrueRule m = record {
    walked = λ started live w n s. tt;
    journalled = λ p h. tt;
    emptied = λ p w h. tt;
    finished = λ u p h. finish-IsTrue u p;
    excepted = excepted-IsTrue;
  }

  -- The final state tells the truth: `committed` has no woven field and no conflict, `auto_woven` has woven
  -- fields and no conflict, `conflicted` has conflicts and progress, `needs_input` has conflicts and no
  -- progress, `gateway_unavailable` and `failed` have nothing, and no other state is returned.
  pub apply_manifest-IsTrue :
      (m : ControlManifest) (s : ControlStore) → IsTrue (apply_manifest env m s).0
  apply_manifest-IsTrue m s = apply_manifest_rule env m (λ r s. IsTrue r) AnyPass (TrueRule m) s
