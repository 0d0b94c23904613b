-- ===== src/Driver/Order.antt =====
-- In which order the drivers are called.
pub mod All
use cyancore.Common.{
  ℕ, zero, suc, ◌+◌, ◌≤◌, ◌<◌, ◌≡◌, ◌≢◌, refl, sym, ap, ap₂, ◌∙◌, Bool, true, false, ◌&&◌, ◌||◌,
  not, List, [], ◌∷◌, ◌++◌, map, arith, ◌==◌, if◌then◌else◌, inl, inr, Bool-cases, ==_iff, ne→==,
}
use cyancore.Status.{success}
use cyancore.Driver.{
  Device, Outcome, Operation, driver_register, driver_deregister, with_order, for_orders, ascending,
  descending, driver_setup_all, driver_exit_all, status_or,
}

abbrev pub select : (Device → Bool) → List Device → List Device
select p [] = []
select p (d ∷ ds) = if p d then d ∷ select p ds else select p ds

-- What an operation does to a device: whether it calls its function, and what it leaves.
pub record IsOperation (op : Operation) (accepts : Device → Bool) (after : Device → Device)
    : Type 0 where
  pub calls : (d : Device) → (op d).calls ≡ (if accepts d then d ∷ [] else [])
  pub result : (d : Device) → (op d).result ≡ after d
  pub keeps_order : (d : Device) → (after d).sorder ≡ d.sorder

abbrev pub can_register : Device → Bool
can_register d = d.percpu || not d.exec

abbrev pub can_deregister : Device → Bool
can_deregister d = d.percpu || d.exec

abbrev pub registered : Device → Device
registered d = if d.percpu then d else record d { exec = true }

abbrev pub deregistered : Device → Device
deregistered d = if d.percpu then d else record d { exec = false }

abbrev device : List ℕ → ℕ → ℕ → Bool → Bool → Device
device n s e x p = record { name = n; sorder = s; eorder = e; exec = x; percpu = p }

register-result :
    (setup : Device → ℕ) (n : List ℕ) (s e : ℕ) (x p : Bool)
    → (driver_register setup (device n s e x p)).result ≡ registered (device n s e x p)
unfolding driver_register
register-result setup n s e true true = refl
register-result setup n s e true false = refl
register-result setup n s e false true = refl
register-result setup n s e false false = refl

deregister-result :
    (exit : Device → ℕ) (n : List ℕ) (s e : ℕ) (x p : Bool)
    → (driver_deregister exit (device n s e x p)).result ≡ deregistered (device n s e x p)
unfolding driver_deregister
deregister-result exit n s e true true = refl
deregister-result exit n s e true false = refl
deregister-result exit n s e false true = refl
deregister-result exit n s e false false = refl

pub register-IsOperation :
    (setup : Device → ℕ) → IsOperation (driver_register setup) can_register registered
unfolding driver_register
register-IsOperation setup = record {
  calls = λ d. ground arith;
  result = λ d. register-result setup d.name d.sorder d.eorder d.exec d.percpu;
  keeps_order = λ d. ground arith;
}

pub deregister-IsOperation :
    (exit : Device → ℕ) → IsOperation (driver_deregister exit) can_deregister deregistered
unfolding driver_deregister
deregister-IsOperation exit = record {
  calls = λ d. ground arith;
  result = λ d. deregister-result exit d.name d.sorder d.eorder d.exec d.percpu;
  keeps_order = λ d. ground arith;
}

append-if :
    (b : Bool) (d : Device) (xs ys : List Device)
    → xs ≡ ys
    → (if b then d ∷ [] else []) ++ xs ≡ (if b then d ∷ ys else ys)
append-if true d xs ys e = ap (λ l. d ∷ l) e
append-if false d xs ys e = e

-- The devices of one order that are called, and the table afterwards.
abbrev pub at_order : (Device → Bool) → ℕ → List Device → List Device
at_order accepts o table = select (λ d. o == d.sorder && accepts d) table

abbrev pub after_order : (Device → Device) → ℕ → Device → Device
after_order after o d = if o == d.sorder then after d else d

abbrev pub in_orders : (Device → Bool) → List ℕ → List Device → List Device
in_orders accepts [] table = []
in_orders accepts (o ∷ os) table = at_order accepts o table ++ in_orders accepts os table

abbrev pub member : ℕ → List ℕ → Bool
member s [] = false
member s (o ∷ os) = if o == s then true else member s os

abbrev pub IsDistinct : List ℕ → Type 0
IsDistinct [] = Unit
IsDistinct (o ∷ os) = (member o os ≡ false) × IsDistinct os

abbrev pub after_orders : (Device → Device) → List ℕ → Device → Device
after_orders after os d = if member d.sorder os then after d else d

module _ (op : Operation) (accepts : Device → Bool) (after : Device → Device)
    (law : IsOperation op accepts after) where
  with_order-lem :
      (o ret : ℕ) (table : List Device)
      → ((with_order op o ret table).calls ≡ at_order accepts o table)
        × ((with_order op o ret table).result ≡ map (after_order after o) table)
  unfolding with_order
  with_order-lem o ret [] = (refl, refl)
  with_order-lem o ret (d ∷ ds) = elim (Bool-cases (o == d.sorder)) [
    | inl e ↦
        let rest = with_order-lem o (status_or ret (op d).status) ds in
        (
          rw (e, law.calls d)
              (append-if (accepts d) d (with_order op o (status_or ret (op d).status) ds).calls
                (at_order accepts o ds) rest.0),
          rw (e, law.result d) (ap (λ l. after d ∷ l) rest.1),
        )
    | inr ne ↦ let rest = with_order-lem o ret ds in (rw ne rest.0, rw ne (ap (λ l. d ∷ l) rest.1))
  ]

  -- Working on one order does not change what another order has.
  at_order-after :
      (o q : ℕ) (table : List Device)
      → o ≢ q
      → at_order accepts q (map (after_order after o) table) ≡ at_order accepts q table
  at_order-after o q [] ne = refl
  at_order-after o q (d ∷ ds) ne = elim (Bool-cases (o == d.sorder)) [
    | inl e ↦
        let other : (q == d.sorder) ≡ false = ground arith in
        rw (e, law.keeps_order d, other) (at_order-after o q ds ne)
    | inr out ↦
        rw out
          (ap (λ l. if q == d.sorder && accepts d then d ∷ l else l) (at_order-after o q ds ne))
  ]

  in_orders-after :
      (o : ℕ) (os : List ℕ) (table : List Device)
      → member o os ≡ false
      → in_orders accepts os (map (after_order after o) table) ≡ in_orders accepts os table
  in_orders-after o [] table h = refl
  in_orders-after o (q ∷ os) table h =
      ap₂ (λ xs ys. xs ++ ys) (at_order-after o q table (ground arith))
        (in_orders-after o os table (ground arith))

  -- Over distinct orders the calls are those of each order in turn, as the first table has them.
  pub for_orders-calls :
      (os : List ℕ) (ret : ℕ) (table : List Device)
      → IsDistinct os
      → (for_orders op os ret table).calls ≡ in_orders accepts os table
  unfolding for_orders
  for_orders-calls [] ret table h = refl
  for_orders-calls (o ∷ os) ret table (fresh, h) =
      let now = with_order op o success table in
      let (called, left) = with_order-lem o success table in
      ap₂ (λ xs ys. xs ++ ys) called
        (for_orders-calls os (status_or ret now.status) now.result h
          ∙ ap (in_orders accepts os) left
          ∙ in_orders-after o os table fresh)

  untouched : (table : List Device) → table ≡ map (after_orders after []) table
  untouched [] = refl
  untouched (d ∷ ds) = ap (λ l. d ∷ l) (untouched ds)

  after_orders-cons :
      (o : ℕ) (os : List ℕ) (table : List Device)
      → member o os ≡ false
      → map (after_orders after os) (map (after_order after o) table)
        ≡ map (after_orders after (o ∷ os)) table
  after_orders-cons o os [] h = refl
  after_orders-cons o os (d ∷ ds) h = elim (Bool-cases (o == d.sorder)) [
    | inl e ↦
        let here : d.sorder ≡ o = sym ((==_iff o d.sorder).0 e) in
        let gone : member (after d).sorder os ≡ false =
          ap (λ s. member s os) (law.keeps_order d ∙ here) ∙ h in
        ap₂ (λ x xs. x ∷ xs) (rw (e, gone) refl) (after_orders-cons o os ds h)
    | inr out ↦ ap₂ (λ x xs. x ∷ xs) (rw out refl) (after_orders-cons o os ds h)
  ]

  pub for_orders-result :
      (os : List ℕ) (ret : ℕ) (table : List Device)
      → IsDistinct os
      → (for_orders op os ret table).result ≡ map (after_orders after os) table
  unfolding for_orders
  for_orders-result [] ret table h = untouched table
  for_orders-result (o ∷ os) ret table (fresh, h) =
      let now = with_order op o success table in
      for_orders-result os (status_or ret now.status) now.result h
      ∙ ap (map (after_orders after os)) (with_order-lem o success table).1
      ∙ after_orders-cons o os table fresh
