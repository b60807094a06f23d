-- ===== src/Scheduler/Kept.antt =====
-- What a thread keeps of the fiber that came back to it, and how that fiber is settled.
use ota_new.Common.{
  ℕ, ◌+◌, ◌≤◌, ◌≡◌, ◌≢◌, refl, sym, List, Option, some, Bool, true, false, length, get_elem?, arith,
  ◌==◌, length-set, get_elem?-set_self, get_elem?-set_ne,
}
use ota_new.Scheduler.{State, init, hold, exec, term, ready, except, settle, kept_fiber, again}
use ota_new.Scheduler.Owned.{queued, spare_in, one}
use ota_new.Scheduler.Steps.{get-some}

-- What `run` keeps of a fiber that came back is no more than it had.
pub keeps-le :
    (C : Type 0) (f g : ℕ) (own : Bool) (x : State) (cb : Option ℕ)
    → queued {C = C} f (again g x) + spare_in f (kept_fiber g own x cb)
      ≤ one (g == f) + spare_in f cb
keeps-le C f g true init cb = omega arith
keeps-le C f g true hold cb = omega arith
keeps-le C f g true exec cb = omega arith
keeps-le C f g true term cb = omega arith
keeps-le C f g true ready cb = omega arith
keeps-le C f g true except cb = omega arith
keeps-le C f g false init cb = omega arith
keeps-le C f g false hold cb = omega arith
keeps-le C f g false exec cb = omega arith
keeps-le C f g false term cb = omega arith
keeps-le C f g false ready cb = omega arith
keeps-le C f g false except cb = omega arith

-- The state in which a fiber is left.
abbrev pub settled : Bool → State → State
settled true term = init
settled true except = init
settled false term = term
settled false except = except
settled own ready = ready
settled own _ = hold

pub settled-get :
    (g : ℕ) (own : Bool) (x : State) (st : List State)
    → get_elem? st g ≡ some x
    → get_elem? (settle g own x st) g ≡ some (settled own x)
settled-get g true init st e = get_elem?-set_self st g hold (get-some st g init e)
settled-get g true hold st e = get_elem?-set_self st g hold (get-some st g hold e)
settled-get g true exec st e = get_elem?-set_self st g hold (get-some st g exec e)
settled-get g true term st e = get_elem?-set_self st g init (get-some st g term e)
settled-get g true ready st e = e
settled-get g true except st e = get_elem?-set_self st g init (get-some st g except e)
settled-get g false init st e = get_elem?-set_self st g hold (get-some st g init e)
settled-get g false hold st e = get_elem?-set_self st g hold (get-some st g hold e)
settled-get g false exec st e = get_elem?-set_self st g hold (get-some st g exec e)
settled-get g false term st e = e
settled-get g false ready st e = e
settled-get g false except st e = e

pub settled-exec : (own : Bool) (x : State) → some (settled own x) ≢ some exec
settled-exec true init h = absurd (ground (arith, h))
settled-exec true hold h = absurd (ground (arith, h))
settled-exec true exec h = absurd (ground (arith, h))
settled-exec true term h = absurd (ground (arith, h))
settled-exec true ready h = absurd (ground (arith, h))
settled-exec true except h = absurd (ground (arith, h))
settled-exec false init h = absurd (ground (arith, h))
settled-exec false hold h = absurd (ground (arith, h))
settled-exec false exec h = absurd (ground (arith, h))
settled-exec false term h = absurd (ground (arith, h))
settled-exec false ready h = absurd (ground (arith, h))
settled-exec false except h = absurd (ground (arith, h))

pub kept-init :
    (g : ℕ) (own : Bool) (x : State) (cb : Option ℕ)
    → spare_in g cb ≡ 0
    → 1 ≤ spare_in g (kept_fiber g own x cb)
    → settled own x ≡ init
kept-init g true init cb z h = absurd (omega (arith, z, h))
kept-init g true hold cb z h = absurd (omega (arith, z, h))
kept-init g true exec cb z h = absurd (omega (arith, z, h))
kept-init g true term cb z h = refl
kept-init g true ready cb z h = absurd (omega (arith, z, h))
kept-init g true except cb z h = refl
kept-init g false init cb z h = absurd (omega (arith, z, h))
kept-init g false hold cb z h = absurd (omega (arith, z, h))
kept-init g false exec cb z h = absurd (omega (arith, z, h))
kept-init g false term cb z h = absurd (omega (arith, z, h))
kept-init g false ready cb z h = absurd (omega (arith, z, h))
kept-init g false except cb z h = absurd (omega (arith, z, h))

pub settle-others :
    (g : ℕ) (own : Bool) (x : State) (st : List State) (f : ℕ)
    → f ≢ g
    → get_elem? (settle g own x st) f ≡ get_elem? st f
settle-others g true init st f ne = get_elem?-set_ne st hold (λ e. ne (sym e))
settle-others g true hold st f ne = get_elem?-set_ne st hold (λ e. ne (sym e))
settle-others g true exec st f ne = get_elem?-set_ne st hold (λ e. ne (sym e))
settle-others g true term st f ne = get_elem?-set_ne st init (λ e. ne (sym e))
settle-others g true ready st f ne = refl
settle-others g true except st f ne = get_elem?-set_ne st init (λ e. ne (sym e))
settle-others g false init st f ne = get_elem?-set_ne st hold (λ e. ne (sym e))
settle-others g false hold st f ne = get_elem?-set_ne st hold (λ e. ne (sym e))
settle-others g false exec st f ne = get_elem?-set_ne st hold (λ e. ne (sym e))
settle-others g false term st f ne = refl
settle-others g false ready st f ne = refl
settle-others g false except st f ne = refl

pub settle-length :
    (g : ℕ) (own : Bool) (x : State) (st : List State) → length (settle g own x st) ≡ length st
settle-length g true init st = length-set st g hold
settle-length g true hold st = length-set st g hold
settle-length g true exec st = length-set st g hold
settle-length g true term st = length-set st g init
settle-length g true ready st = refl
settle-length g true except st = length-set st g init
settle-length g false init st = length-set st g hold
settle-length g false hold st = length-set st g hold
settle-length g false exec st = length-set st g hold
settle-length g false term st = refl
settle-length g false ready st = refl
settle-length g false except st = refl

pub kept-others :
    (f g : ℕ) (own : Bool) (x : State) (cb : Option ℕ)
    → one (g == f) ≡ 0
    → spare_in f (kept_fiber g own x cb) ≤ spare_in f cb
kept-others f g true init cb z = omega (arith, z)
kept-others f g true hold cb z = omega (arith, z)
kept-others f g true exec cb z = omega (arith, z)
kept-others f g true term cb z = omega (arith, z)
kept-others f g true ready cb z = omega (arith, z)
kept-others f g true except cb z = omega (arith, z)
kept-others f g false init cb z = omega (arith, z)
kept-others f g false hold cb z = omega (arith, z)
kept-others f g false exec cb z = omega (arith, z)
kept-others f g false term cb z = omega (arith, z)
kept-others f g false ready cb z = omega (arith, z)
kept-others f g false except cb z = omega (arith, z)
