-- ===== src/Ota/Consumer/Commands.antt =====
-- Which commands the thread hands on, and when it gives up.
use ota_new.Common.{
  ℕ, sym, suc, ◌+◌, ◌≤◌, ◌≡◌, refl, ap, ◌∙◌, List, [], ◌∷◌, ◌++◌, Option, none, some, Bool, true,
  false, if◌then◌else◌, Text, ltb, ◌==◌, get_elem?, length, All, arith, Bool-cases, inl, inr, ◌⊎◌,
}
use ota_new.Ota.Redis.{Reply, array, nil, string, integer, status, error}
use ota_new.Ota.Consumer.{Popped, command, idle, bad, popped, max_error_count, run}

-- What a reply to BRPOP carries: the second of the two elements of an array, behind the key of the queue.
abbrev pub second : List (Option Text) → Option Text
second xs = elim (get_elem? xs 1) [ none ↦ none | some v ↦ v ]

abbrev pub carried : Option Reply → Option Text
carried (some (array xs)) = if length xs == 2 then second xs else none
carried _ = none

-- The texts that the replies carry, in order.
unfoldable pub commands_of : List (Option Reply) → List Text
commands_of [] = []
commands_of (reply ∷ replies) = elim (carried reply) [
  | none ↦ commands_of replies
  | some v ↦ v ∷ commands_of replies
]

abbrev handed : Popped → Option Text
handed (command v) = some v
handed idle = none
handed bad = none

popped-carried : (reply : Option Reply) → carried reply ≡ handed (popped reply)
unfolding popped
popped-carried none = refl
popped-carried (some (array [])) = refl
popped-carried (some (array (k ∷ []))) = refl
popped-carried (some (array (k ∷ none ∷ []))) = refl
popped-carried (some (array (k ∷ some v ∷ []))) = refl
popped-carried (some (array (k ∷ none ∷ x ∷ xs))) = ground arith
popped-carried (some (array (k ∷ some v ∷ x ∷ xs))) = ground arith
popped-carried (some nil) = refl
popped-carried (some (string t)) = refl
popped-carried (some (integer n)) = refl
popped-carried (some (status t)) = refl
popped-carried (some (error t)) = refl

Popped-cases : (p : Popped) → ((v : Text) × (p ≡ command v)) ⊎ ((p ≡ idle) ⊎ (p ≡ bad))
Popped-cases (command v) = inl (v, refl)
Popped-cases idle = inr (inl refl)
Popped-cases bad = inr (inr refl)

-- A reply that is neither a timeout nor carries a text.
abbrev pub is_error : Option Reply → Bool
is_error (some nil) = false
is_error reply = elim (carried reply) [ none ↦ true | some v ↦ false ]

abbrev is_bad : Popped → Bool
is_bad (command v) = false
is_bad idle = false
is_bad bad = true

popped-is_error : (reply : Option Reply) → is_error reply ≡ is_bad (popped reply)
unfolding popped
popped-is_error none = refl
popped-is_error (some (array [])) = refl
popped-is_error (some (array (k ∷ []))) = refl
popped-is_error (some (array (k ∷ none ∷ []))) = refl
popped-is_error (some (array (k ∷ some v ∷ []))) = refl
popped-is_error (some (array (k ∷ none ∷ x ∷ xs))) = ground arith
popped-is_error (some (array (k ∷ some v ∷ x ∷ xs))) = ground arith
popped-is_error (some nil) = refl
popped-is_error (some (string t)) = refl
popped-is_error (some (integer n)) = refl
popped-is_error (some (status t)) = refl
popped-is_error (some (error t)) = refl

-- A run that gave up: at the end of `errors`, which are enough with those before them or by themselves.
record Ends (error_cnt : ℕ) (replies : List (Option Reply)) (out : List Text) : Type 0 where
  front : List (Option Reply)
  errors : List (Option Reply)
  later : List (Option Reply)
  split : replies ≡ front ++ (errors ++ later)
  failing : All (λ r. is_error r ≡ true) errors
  enough : ((front ≡ []) × (length errors + error_cnt ≡ 11)) ⊎ (length errors ≡ 11)
  handed_on : out ≡ commands_of front

abbrev Result : ℕ → List (Option Reply) → List Text × Bool → Type 0
Result error_cnt replies (out, gave_up) =
    ((gave_up ≡ false) × (out ≡ commands_of replies))
    ⊎ ((gave_up ≡ true) × Ends error_cnt replies out)

-- A reply that is no error, or an error behind which others are counted anew.
past :
    (reply : Option Reply) (replies : List (Option Reply)) (out : List Text) (error_cnt : ℕ)
    (e : Ends error_cnt replies out)
    → length e.errors ≡ 11
    → (v : List Text) → commands_of (reply ∷ e.front) ≡ v ++ commands_of e.front
    → (k : ℕ) → Ends k (reply ∷ replies) (v ++ out)
past reply replies out error_cnt e eleven v same k = record {
  front = reply ∷ e.front;
  errors = e.errors;
  later = e.later;
  split = ap (◌∷◌ reply) e.split;
  failing = e.failing;
  enough = inr eleven;
  handed_on = ap (λ (l : List Text). v ++ l) e.handed_on ∙ sym same;
}

eleven_of :
    (replies : List (Option Reply)) (out : List Text) (e : Ends 0 replies out)
    → length e.errors ≡ 11
eleven_of replies out e = elim e.enough [ inl (first, n) ↦ omega (arith, n) | inr n ↦ n ]

-- One error more.
counted_on :
    (reply : Option Reply) (replies : List (Option Reply)) (out : List Text) (error_cnt : ℕ)
    → is_error reply ≡ true
    → ((front : List (Option Reply)) → commands_of (reply ∷ front) ≡ commands_of front)
    → Ends (suc error_cnt) replies out
    → Ends error_cnt (reply ∷ replies) out
unfolding commands_of
counted_on reply replies out error_cnt h same e = elim e.enough [
  | inr n ↦ past reply replies out (suc error_cnt) e n [] (same e.front) error_cnt
  | inl (first, n) ↦ record {
    front = [];
    errors = reply ∷ e.errors;
    later = e.later;
    split =
        ap (◌∷◌ reply)
          (e.split ∙ ap (λ (l : List (Option Reply)). l ++ (e.errors ++ e.later)) first);
    failing = (h, e.failing);
    enough = inl (refl, omega (arith, n));
    handed_on = e.handed_on ∙ ap commands_of first;
  }
]

-- What one reply adds to the commands.
commands_of-popped :
    (reply : Option Reply) (p : Popped)
    → popped reply ≡ p
    → (l : List (Option Reply))
    → commands_of (reply ∷ l)
      ≡ elim (handed p) [ none ↦ commands_of l | some v ↦ v ∷ commands_of l ]
unfolding commands_of
commands_of-popped reply p e l =
    ap (λ o. elim o as (λ x. List Text) [ none ↦ commands_of l | some v ↦ v ∷ commands_of l ])
      (popped-carried reply ∙ ap handed e)

run-Result :
    (error_cnt : ℕ) (replies : List (Option Reply))
    → error_cnt ≤ 10
    → Result error_cnt replies (run error_cnt replies)
unfolding run commands_of
run-Result error_cnt [] le = inl (refl, refl)
run-Result error_cnt (reply ∷ replies) le = elim (Popped-cases (popped reply)) [
  | inl (v, e) ↦
      let kept = commands_of-popped reply _ e in
      rw (e, run)
        (elim (run-Result 0 replies (omega arith)) [
          | inl (on, all) ↦ inl (on, ap (◌∷◌ v) all ∙ sym (kept replies))
          | inr (up, ends) ↦ inr (
            up,
            past reply replies _ 0 ends (eleven_of replies _ ends) (v ∷ []) (kept ends.front)
                error_cnt,
          )
        ])
  | inr (inl e) ↦
      let kept = commands_of-popped reply _ e in
      rw (e, run)
        (elim (run-Result 0 replies (omega arith)) [
          | inl (on, all) ↦ inl (on, all ∙ sym (kept replies))
          | inr (up, ends) ↦ inr (
            up,
            past reply replies _ 0 ends (eleven_of replies _ ends) [] (kept ends.front) error_cnt,
          )
        ])
  | inr (inr e) ↦
      let kept = commands_of-popped reply _ e in
      let failed : is_error reply ≡ true = popped-is_error reply ∙ ap is_bad e in
      elim (Bool-cases (ltb max_error_count (suc error_cnt))) [
        | inl over ↦
            rw (e, over, run)
              (inr (
                refl,
                record {
                  front = [];
                  errors = reply ∷ [];
                  later = replies;
                  split = refl;
                  failing = (failed, tt);
                  enough = inl (refl, ground (arith, over, le));
                  handed_on = refl;
                },
              ))
        | inr under ↦
            rw (e, under, run)
              (elim (run-Result (suc error_cnt) replies (ground (arith, under))) [
                | inl (on, all) ↦ inl (on, all ∙ sym (kept replies))
                | inr (up, ends) ↦ inr (up, counted_on reply replies _ error_cnt failed kept ends)
              ])
      ]
]

-- The thread hands on every text that a reply carries as the second of two elements, in order and each once;
-- or it gave up, at eleven replies in a row that are errors, and has handed on all those before them.
pub run-commands :
    (replies : List (Option Reply))
    → (((run 0 replies).1 ≡ false) × ((run 0 replies).0 ≡ commands_of replies))
      ⊎ (((run 0 replies).1 ≡ true)
          × ((front errors later : List (Option Reply)) × (replies ≡ front ++ (errors ++ later))
              × All (λ r. is_error r ≡ true) errors
              × (length errors ≡ 11)
              × ((run 0 replies).0 ≡ commands_of front)))
run-commands replies = elim (run-Result 0 replies (omega arith)) [
  | inl on ↦ inl on
  | inr (up, e) ↦
      inr (up, (e.front, e.errors, e.later, e.split, e.failing, eleven_of replies _ e, e.handed_on))
]
