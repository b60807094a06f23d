-- ===== src/Log/Ready.antt =====
-- Every appender of a logger has a formatter, so that a log call does not go through a null pointer.
use ota_new.Common.{
  ℕ, ◌≡◌, refl, List, [], ◌∷◌, ◌++◌, Option, some, Bool, true, false, leb, Bool-cases, Option-cases,
  inl, inr, map, All, Text, if◌then◌else◌,
}
use ota_new.Log.{LogFormatter, LogEvent, init}
use ota_new.Log.Logger.{
  LogAppender, Logger, new_logger, add_appender, del_appender, clear_appenders, set_formatter,
  set_pattern, share, print_to, print_all, log_root, log, Step, add_plain, add_own, del, clear,
  set_shared, set_text, set_level, Reach, made, next, Prints, IsReady,
}

Prints-append :
    (f : LogFormatter) (l : List LogAppender) (a : LogAppender)
    → All (Prints f) l
    → Prints f a
    → All (Prints f) (l ++ (a ∷ []))
Prints-append f [] a ps p = (p, tt)
Prints-append f (b ∷ l) a (q, ps) p = (q, Prints-append f l a ps p)

Prints-share :
    (f g : LogFormatter) (l : List LogAppender)
    → All (Prints f) l
    → All (Prints g) (map (share (some g)) l)
Prints-share f g [] ps = tt
Prints-share f g (a ∷ l) ((h, has, own), ps) = (
  elim (Bool-cases a.has_formatter) [
    | inl yes_own ↦ rw yes_own (h, has, λ e. cc e)
    | inr shared ↦ rw shared (g, refl, λ e. refl)
  ],
  Prints-share f g l ps,
)

set_pattern-IsReady : (val : Text) (l : Logger) → IsReady l → IsReady (set_pattern val l)
unfolding set_pattern
set_pattern-IsReady val l (f, e, ps) = elim (Option-cases (init val)) [
  | inl out ↦ rw (out, set_pattern) (f, e, ps)
  | inr (g, made_g) ↦ rw (made_g, set_pattern) (taken g g.has_error)
]
  where
    taken : (g : LogFormatter) (b : Bool) → IsReady (if b then l else set_formatter (some g) l)
    taken g true = (f, e, ps)
    taken g false = (g, refl, Prints-share f g l.appenders ps)

Step-IsReady : {l m : Logger} → Step l m → IsReady l → IsReady m
unfolding add_appender del_appender clear_appenders set_formatter
Step-IsReady {l} (add_plain k) (f, e, ps) =
    (f, e, Prints-append f l.appenders _ ps (f, e, λ h. refl))
Step-IsReady {l} (add_own k g) (f, e, ps) =
    (f, e, Prints-append f l.appenders _ ps (g, refl, λ h. cc h))
Step-IsReady {l} del (f, e, ps) = (f, e, behind f l.appenders ps)
  where
    behind :
        (f : LogFormatter) (rest : List LogAppender)
        → All (Prints f) rest
        → All (Prints f) (elim rest [ [] ↦ [] | a ∷ later ↦ later ])
    behind f [] ps = tt
    behind f (a ∷ rest) (p, ps) = ps
Step-IsReady clear (f, e, ps) = (f, e, tt)
Step-IsReady {l} (set_shared g) (f, e, ps) = (g, refl, Prints-share f g l.appenders ps)
Step-IsReady {l} (set_text val) r = set_pattern-IsReady val l r
Step-IsReady (set_level k) r = r

Reach-IsReady : {l : Logger} → Reach l → IsReady l
unfolding new_logger init
Reach-IsReady (made name) = (_, refl, tt)
Reach-IsReady (next r s) = Step-IsReady s (Reach-IsReady r)

module _ (strftime : Text → Text) where
  Printed : Option (List Text) → Type 0
  Printed o = (out : List Text) × (o ≡ some out)

  print_to-Printed :
      (k : ℕ) (e : LogEvent) (f : LogFormatter) (a : LogAppender)
      → Prints f a
      → Printed (print_to strftime k e a)
  unfolding print_to Printed
  print_to-Printed k e f a (g, has, own) = elim (Bool-cases (leb a.level k)) [
    | inl loud ↦ rw (loud, has) (_, refl)
    | inr quiet ↦ rw quiet (_, refl)
  ]

  print_all-Printed :
      (k : ℕ) (e : LogEvent) (f : LogFormatter) (l : List LogAppender)
      → All (Prints f) l
      → Printed (print_all strftime k e l)
  unfolding print_all Printed
  print_all-Printed k e f [] ps = ([], refl)
  print_all-Printed k e f (a ∷ l) (p, ps) =
      let (xs, first) = print_to-Printed k e f a p in
      let (ys, later) = print_all-Printed k e f l ps in (xs ++ ys, rw (first, later) refl)

  log_root-Printed :
      (k : ℕ) (e : LogEvent) (l : Logger) → IsReady l → Printed (log_root strftime k e l)
  unfolding log_root Printed
  log_root-Printed k e l (f, has, ps) = elim (Bool-cases (leb l.level k)) [
    | inl loud ↦ rw loud (print_all-Printed k e f l.appenders ps)
    | inr quiet ↦ rw quiet ([], refl)
  ]

  log-Printed :
      (k : ℕ) (e : LogEvent) (root : Logger) (name : Text) (level : ℕ) (f : LogFormatter)
      (o : Option LogFormatter) (l : List LogAppender)
      → IsReady root
      → All (Prints f) l
      → Printed (
          log strftime k e root
            (record { name = name; level = level; formatter = o; appenders = l }))
  unfolding log Printed
  log-Printed k e root name level f o [] r ps = elim (Bool-cases (leb level k)) [
    | inl loud ↦ rw loud (log_root-Printed k e root r)
    | inr quiet ↦ rw quiet ([], refl)
  ]
  log-Printed k e root name level f o (a ∷ l) r ps = elim (Bool-cases (leb level k)) [
    | inl loud ↦ rw loud (print_all-Printed k e f (a ∷ l) ps)
    | inr quiet ↦ rw quiet ([], refl)
  ]

  -- Whatever is called on a logger with appenders that are new and formatters that are not null: each of its appenders has a formatter, which is
  -- the logger's if it was given none of its own; and no `log`, for which the root may print, goes through a
  -- null pointer.
  pub Reach-logs :
      (k : ℕ) (e : LogEvent) {root l : Logger}
      → Reach root
      → Reach l
      → IsReady l × ((out : List Text) × (log strftime k e root l ≡ some out))
  unfolding Printed
  Reach-logs k e {root} {l} r q =
      let (f, has, ps) = Reach-IsReady q in
      (
        (f, has, ps),
        log-Printed k e root l.name l.level f l.formatter l.appenders (Reach-IsReady r) ps,
      )
