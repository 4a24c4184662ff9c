-- ===== src/LogSystem/Front/Registry.antt =====
-- The registry of loggers: Manager.hpp of src/log_system/logs_code.
use kama_asyn_log_system_clo.Base.{
  if◌then◌else◌, Bool-cases, lookup, insert, lookup-insert, Bytes, bytes_eq, bytes_eq_sound, ◌≡◌,
  refl, sym, ap, subst, ◌∙◌, inl, inr, Bool, true, false, Option, none, some, List, [], ◌∷◌,
}
use kama_asyn_log_system_clo.LogSystem.Front.{
  name_key, is_found, LoggerManager, get_logger, logger_exist, add_logger, shutdown,
}

-- The calls of a program.
pub data Call (L : Type 0) : Type 0 where
  add_call : L → Call L
  shutdown_call : Call L

-- The first of two that is there.
unfoldable pub or_else : {L : Type 0} → Option L → L → Option L
or_else none logger = some logger
or_else (some first) logger = some first

or_else_found :
    {L : Type 0} (first : Option L) (logger : L)
    → is_found first ≡ true
    → or_else first logger ≡ first
unfolding or_else is_found
or_else_found none logger h = cc
or_else_found (some first) logger h = refl

or_else_missing :
    {L : Type 0} (first : Option L) (logger : L)
    → is_found first ≡ false
    → or_else first logger ≡ some logger
unfolding or_else is_found
or_else_missing none logger h = refl
or_else_missing (some first) logger h = cc

-- Two choices that agree where the test holds.
if_agree :
    {A : Type 0} (c : Bool) (x y z : A)
    → (c ≡ true → x ≡ y)
    → (if c then x else z) ≡ (if c then y else z)
if_agree true x y z h = h refl
if_agree false x y z h = refl

if_same : {A : Type 0} (c : Bool) (z : A) → (if c then z else z) ≡ z
if_same true z = refl
if_same false z = refl

module _ {L : Type 0} (name_of : L → Bytes) where
  unfoldable pub run_calls : List (Call L) → LoggerManager L → LoggerManager L
  run_calls [] m = m
  run_calls (add_call logger ∷ calls) m = run_calls calls (add_logger name_of logger m)
  run_calls (shutdown_call ∷ calls) m = run_calls calls (shutdown name_of m)

  -- The logger of one name: the first that was added since the last shutdown.
  unfoldable pub first_added : Bytes → List (Call L) → Option L → Option L
  first_added name [] now = now
  first_added name (add_call logger ∷ calls) now =
      first_added name calls (if bytes_eq (name_of logger) name then or_else now logger else now)
  first_added name (shutdown_call ∷ calls) now = first_added name calls none

  -- What a name finds behind an added logger.
  abbrev behind : L → Bytes → LoggerManager L → Option L
  behind logger name m =
      if bytes_eq (name_of logger) name
      then or_else (lookup name_key name m.loggers) logger
      else lookup name_key name m.loggers

  abbrev inserted : L → LoggerManager L → LoggerManager L
  inserted logger m = record m { loggers = insert name_key (name_of logger) logger m.loggers }

  kept_lem :
      (logger : L) (name : Bytes) (m : LoggerManager L)
      → is_found (lookup name_key (name_of logger) m.loggers) ≡ true
      → lookup name_key name m.loggers ≡ behind logger name m
  kept_lem logger name m h =
      let here = lookup name_key name m.loggers in
      sym (if_same (bytes_eq (name_of logger) name) here)
      ∙ if_agree (bytes_eq (name_of logger) name) here (or_else here logger) here (λ same. sym (
          or_else_found here logger (
            subst (λ n. is_found (lookup name_key n m.loggers) ≡ true)
              (bytes_eq_sound (name_of logger) name same) h)))

  inserted_lem :
      (logger : L) (name : Bytes) (m : LoggerManager L)
      → is_found (lookup name_key (name_of logger) m.loggers) ≡ false
      → lookup name_key name (inserted logger m).loggers ≡ behind logger name m
  unfolding name_key
  inserted_lem logger name m h =
      let here = lookup name_key name m.loggers in
      lookup-insert name_key (name_of logger) name logger m.loggers
      ∙ if_agree (bytes_eq (name_of logger) name) (some logger) (or_else here logger) here (λ same.
        sym (
          or_else_missing here logger (
            subst (λ n. is_found (lookup name_key n m.loggers) ≡ false)
              (bytes_eq_sound (name_of logger) name same) h)))

  get_logger-add_logger :
      (logger : L) (name : Bytes) (m : LoggerManager L)
      → get_logger name_of name (add_logger name_of logger m) ≡ (
          if bytes_eq (name_of logger) name
          then or_else (get_logger name_of name m) logger
          else get_logger name_of name m)
  unfolding get_logger add_logger logger_exist
  get_logger-add_logger logger name m =
      let there = is_found (lookup name_key (name_of logger) m.loggers) in
      elim (Bool-cases there) [
        | inl h ↦
            ap (λ b. lookup name_key name (if b then m else inserted logger m).loggers) h
            ∙ kept_lem logger name m h
        | inr h ↦
            ap (λ b. lookup name_key name (if b then m else inserted logger m).loggers) h
            ∙ inserted_lem logger name m h
      ]

  none_left :
      (name : Bytes) (m : LoggerManager L) → get_logger name_of name (shutdown name_of m) ≡ none
  unfolding get_logger shutdown lookup
  none_left name m = refl

  -- Behind any calls, a name finds the first logger that was added with it since the last shutdown,
  -- or, if there was no shutdown, what it found before.
  pub get_logger-run_calls :
      (name : Bytes) (calls : List (Call L)) (m : LoggerManager L)
      → get_logger name_of name (run_calls calls m)
        ≡ first_added name calls (get_logger name_of name m)
  unfolding run_calls first_added
  get_logger-run_calls name [] m = refl
  get_logger-run_calls name (add_call logger ∷ calls) m =
      get_logger-run_calls name calls (add_logger name_of logger m)
      ∙ ap (first_added name calls) (get_logger-add_logger logger name m)
  get_logger-run_calls name (shutdown_call ∷ calls) m =
      get_logger-run_calls name calls (shutdown name_of m)
      ∙ ap (first_added name calls) (none_left name m)
