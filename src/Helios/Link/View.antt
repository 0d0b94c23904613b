-- ===== src/Helios/Link/View.antt =====
-- What an insertion does to the links of a ring, address by address.
use cyancore.Common.{
  ◌≡◌, ◌≢◌, Option, none, some, arith, ◌==◌, if◌then◌else◌, refl, sym, ==_refl, ne→==, false,
  Bool-cases, inl, inr,
}
use cyancore.Status.{success}
use cyancore.Helios.Kernel.{Ptr, null, Tcb, Tcbs, Kernel, done, cell, load, modify, edit}
use cyancore.Helios.Link.{
  LinkType, link_wait, link_ready, link, set_link, set_next, set_prev, insert_before,
}

-- `p->next` and `p->prev` in a ring, where there is a block at `p`.
abbrev pub next : LinkType → Tcbs → Ptr → Option Ptr
next t m p = elim (cell m p) [ none ↦ none | some c ↦ some (link t c).next ]

abbrev pub prev : LinkType → Tcbs → Ptr → Option Ptr
prev t m p = elim (cell m p) [ none ↦ none | some c ↦ some (link t c).prev ]

-- The block at `p` but for its links in the ring.
abbrev pub rest : LinkType → Tcbs → Ptr → Option Tcb
rest t m p = elim (cell m p) [
  | none ↦ none
  | some c ↦ some (set_link t (record { prev = 0; next = 0 }) c)
]

abbrev pub map_tcb : (Tcb → Tcb) → Option Tcb → Option Tcb
map_tcb f none = none
map_tcb f (some c) = some (f c)

pub ne_null : (m : Tcbs) (p : Ptr) {c : Tcb} → cell m p ≡ some c → (p == null) ≡ false
unfolding cell
ne_null m p e = ground arith

pub load-ok : (k : Kernel) (p : Ptr) {c : Tcb} → cell k.tcb p ≡ some c → load p k ≡ done c k
unfolding load
load-ok k p e = rw (e, load)

pub modify-ok :
    (k : Kernel) (p : Ptr) (f : Tcb → Tcb) {c : Tcb}
    → cell k.tcb p ≡ some c
    → modify p f k ≡ done tt (record k { tcb = edit k.tcb p f })
unfolding modify
modify-ok k p f e = rw (e, modify)

pub cell-edit :
    (m : Tcbs) (p : Ptr) (f : Tcb → Tcb) (q : Ptr)
    → cell (edit m p f) q ≡ (if q == p then map_tcb f (cell m q) else cell m q)
unfolding cell
cell-edit m p f q = ground arith

pub edit_self :
    (m : Tcbs) (p : Ptr) (f : Tcb → Tcb) {c : Tcb}
    → cell m p ≡ some c
    → cell (edit m p f) p ≡ some (f c)
edit_self m p f e = rw (cell-edit m p f p, ==_refl p, e)

pub edit-ne :
    (m : Tcbs) (p : Ptr) (f : Tcb → Tcb) (q : Ptr) {c : Tcb}
    → q ≢ p
    → cell m q ≡ some c
    → cell (edit m p f) q ≡ some c
edit-ne m p f q ne e = rw (cell-edit m p f q, ne→== q p ne, e)

-- An edit leaves a block where there was one.
pub edit-some :
    (m : Tcbs) (p : Ptr) (f : Tcb → Tcb) (q : Ptr) {c : Tcb}
    → cell m q ≡ some c
    → (d : Tcb) × (cell (edit m p f) q ≡ some d)
edit-some m p f q {c} e = elim (Bool-cases (q == p)) [
  | inl h ↦ (f c, rw (cell-edit m p f q, h, e))
  | inr h ↦ (c, rw (cell-edit m p f q, h, e))
]

-- `new` stands between `last` and `ref`, and nothing else has changed.
pub record IsBetween (t : LinkType) (last new ref : Ptr) (m m' : Tcbs) : Type 0 where
  pub nexts :
      (q : Ptr)
      → next t m' q ≡ (if q == new then some ref else if q == last then some new else next t m q)
  pub prevs :
      (q : Ptr)
      → prev t m' q ≡ (if q == new then some last else if q == ref then some new else prev t m q)
  pub rests : (q : Ptr) → rest t m' q ≡ rest t m q

pub prev-set_prev : (t : LinkType) (p : Ptr) (c : Tcb) → (link t (set_prev t p c)).prev ≡ p
prev-set_prev link_wait p c = refl
prev-set_prev link_ready p c = refl

pub set_next-link :
    (t : LinkType) (p : Ptr) (c : Tcb)
    → link t (set_next t p c) ≡ record { prev = (link t c).prev; next = p }
set_next-link link_wait p c = refl
set_next-link link_ready p c = refl

abbrev pub linked : LinkType → Ptr → Ptr → Ptr → Tcbs → Tcbs
linked t last new ref m =
    edit (edit (edit (edit m new (set_next t ref)) new (set_prev t last)) ref (set_prev t new)) last
      (set_next t new)

-- With the blocks in place the insertion runs to its end.
pub insert_before-linked :
    (t : LinkType) (ref new last : Ptr) (k : Kernel) {c n l : Tcb}
    → cell k.tcb ref ≡ some c
    → cell k.tcb new ≡ some n
    → cell k.tcb last ≡ some l
    → (link t c).prev ≡ last
    → new ≢ ref
    → insert_before ref new t k
      ≡ done (success, ref) (record k { tcb = linked t last new ref k.tcb })
unfolding insert_before
insert_before-linked t ref new last k {c} {n} at_ref at_new at_last ref_prev ne_ref =
    let m₁ = edit k.tcb new (set_next t ref) in
    let m₂ = edit m₁ new (set_prev t last) in
    let m₃ = edit m₂ ref (set_prev t new) in
    let new₁ = edit_self k.tcb new (set_next t ref) at_new in
    let ref₁ = edit-ne k.tcb new (set_next t ref) ref (λ e. ne_ref (sym e)) at_ref in
    let new₂ = edit_self m₁ new (set_prev t last) new₁ in
    let ref₂ = edit-ne m₁ new (set_prev t last) ref (λ e. ne_ref (sym e)) ref₁ in
    let new₃ = edit-ne m₂ ref (set_prev t new) new ne_ref new₂ in
    let (l₁, e₁) = edit-some k.tcb new (set_next t ref) last at_last in
    let (l₂, e₂) = edit-some m₁ new (set_prev t last) last e₁ in
    let (l₃, e₃) = edit-some m₂ ref (set_prev t new) last e₂ in
    rw (ne_null k.tcb new at_new, ne_null k.tcb ref at_ref, modify-ok k new _ at_new)
      (rw
        (
          load-ok (record k { tcb = m₁ }) ref ref₁,
          ref_prev,
          modify-ok (record k { tcb = m₁ }) new _ new₁,
        )
        (rw (modify-ok (record k { tcb = m₂ }) ref (set_prev t new) ref₂) (
          rw (load-ok (record k { tcb = m₃ }) new new₃, prev-set_prev t last (set_next t ref n))
            (rw (modify-ok (record k { tcb = m₃ }) last (set_next t new) e₃)))))

pub linked-IsBetween :
    (t : LinkType) (last new ref : Ptr) (m : Tcbs) {c n l : Tcb}
    → cell m ref ≡ some c
    → cell m new ≡ some n
    → cell m last ≡ some l
    → new ≢ ref
    → new ≢ last
    → IsBetween t last new ref m (linked t last new ref m)
unfolding cell
linked-IsBetween link_wait last new ref m at_ref at_new at_last ne_ref ne_last = record {
  nexts = λ q. ground arith;
  prevs = λ q. ground arith;
  rests = λ q. ground arith;
}
linked-IsBetween link_ready last new ref m at_ref at_new at_last ne_ref ne_last = record {
  nexts = λ q. ground arith;
  prevs = λ q. ground arith;
  rests = λ q. ground arith;
}

abbrev pub alone : LinkType → Ptr → Tcbs → Tcbs
alone t new m = edit (edit m new (set_next t new)) new (set_prev t new)

-- The first block of a ring is linked to itself.
pub insert_before-alone :
    (t : LinkType) (new : Ptr) (k : Kernel) {c : Tcb}
    → cell k.tcb new ≡ some c
    → insert_before null new t k ≡ done (success, new) (record k { tcb = alone t new k.tcb })
unfolding insert_before
insert_before-alone t new k at_new =
    let m₁ = edit k.tcb new (set_next t new) in
    let new₁ = edit_self k.tcb new (set_next t new) at_new in
    rw (ne_null k.tcb new at_new, modify-ok k new (set_next t new) at_new)
      (rw (modify-ok (record k { tcb = m₁ }) new (set_prev t new) new₁))

pub alone-IsBetween :
    (t : LinkType) (new : Ptr) (m : Tcbs) {c : Tcb}
    → cell m new ≡ some c
    → IsBetween t new new new m (alone t new m)
unfolding cell
alone-IsBetween link_wait new m at_new = record {
  nexts = λ q. ground arith;
  prevs = λ q. ground arith;
  rests = λ q. ground arith;
}
alone-IsBetween link_ready new m at_new = record {
  nexts = λ q. ground arith;
  prevs = λ q. ground arith;
  rests = λ q. ground arith;
}
