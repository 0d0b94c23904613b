-- ===== src/Helios/Link/Cut.antt =====
-- What a detachment does to the links of a ring, address by address.
use cyancore.Common.{◌≡◌, ◌≢◌, some, arith, ◌==◌, if◌then◌else◌, sym}
use cyancore.Helios.Kernel.{Ptr, null, Tcb, Tcbs, Kernel, done, cell, edit}
use cyancore.Helios.Link.{
  LinkType, link_wait, link_ready, link, set_link, set_next, set_prev, unlink,
}
use cyancore.Helios.Link.View.{
  edit-ne, edit-some, edit_self, load-ok, modify-ok, next, prev, rest, set_next-link,
}

-- `a` and `b` point at one another.
abbrev pub Joined : LinkType → Tcbs → Ptr → Ptr → Type 0
Joined t m a b = (next t m a ≡ some b) × (prev t m b ≡ some a)

-- `node` is cut out from between `p` and `n`, and nothing else has changed.
pub record IsCut (t : LinkType) (p node n : Ptr) (m m' : Tcbs) : Type 0 where
  pub before : Joined t m p node
  pub after : Joined t m node n
  pub nexts :
      (q : Ptr)
      → next t m' q ≡ (if q == node then some null else if q == p then some n else next t m q)
  pub prevs :
      (q : Ptr)
      → prev t m' q ≡ (if q == node then some null else if q == n then some p else prev t m q)
  pub rests : (q : Ptr) → rest t m' q ≡ rest t m q

abbrev pub cut : LinkType → Ptr → Ptr → Ptr → Tcbs → Tcbs
cut t p node n m =
    edit (edit (edit m p (set_next t n)) n (set_prev t p)) node
      (set_link t (record { prev = null; next = null }))

-- A block that is not alone in its ring is cut out of it.
pub unlink-cut :
    (t : LinkType) (node p n : Ptr) (k : Kernel) {c d e : Tcb}
    → cell k.tcb node ≡ some c
    → cell k.tcb p ≡ some d
    → cell k.tcb n ≡ some e
    → link t c ≡ record { prev = p; next = n }
    → p ≢ node
    → unlink node t k ≡ done tt (record k { tcb = cut t p node n k.tcb })
unfolding unlink
unlink-cut t node p n k {c} at_node at_p at_n at_link ne =
    let m₁ = edit k.tcb p (set_next t n) in
    let m₂ = edit m₁ n (set_prev t p) in
    let k₁ = record k { tcb = m₁ } in
    let node₁ = edit-ne k.tcb p (set_next t n) node (λ e. ne (sym e)) at_node in
    let (d₁, e₁) = edit-some k.tcb p (set_next t n) n at_n in
    let (d₂, e₂) = edit-some m₁ n (set_prev t p) node node₁ in
    rw (load-ok k node at_node, at_link, modify-ok k p (set_next t n) at_p)
      (rw (load-ok k₁ node node₁, at_link, modify-ok k₁ n (set_prev t p) e₁)
        (rw (
          modify-ok (record k { tcb = m₂ }) node (set_link t (record { prev = null; next = null }))
            e₂)))

pub cut-IsCut :
    (t : LinkType) (p node n : Ptr) (m : Tcbs)
    → Joined t m p node
    → Joined t m node n
    → IsCut t p node n m (cut t p node n m)
unfolding cell
cut-IsCut link_wait p node n m j h = record {
  before = j;
  after = h;
  nexts = λ q. ground arith;
  prevs = λ q. ground arith;
  rests = λ q. ground arith;
}
cut-IsCut link_ready p node n m j h = record {
  before = j;
  after = h;
  nexts = λ q. ground arith;
  prevs = λ q. ground arith;
  rests = λ q. ground arith;
}

-- Nor is a block that was alone.
pub unlink-alone :
    (t : LinkType) (node : Ptr) (k : Kernel) {c : Tcb}
    → cell k.tcb node ≡ some c
    → link t c ≡ record { prev = node; next = node }
    → unlink node t k ≡ done tt (record k { tcb = cut t node node node k.tcb })
unfolding unlink
unlink-alone t node k {c} at_node at_link =
    let m₁ = edit k.tcb node (set_next t node) in
    let m₂ = edit m₁ node (set_prev t node) in
    let k₁ = record k { tcb = m₁ } in
    let node₁ = edit_self k.tcb node (set_next t node) at_node in
    let node₂ = edit_self m₁ node (set_prev t node) node₁ in
    rw (load-ok k node at_node, at_link, modify-ok k node (set_next t node) at_node)
      (rw
        (
          load-ok k₁ node node₁,
          set_next-link t node c,
          at_link,
          modify-ok k₁ node (set_prev t node) node₁,
        )
        (rw (
          modify-ok (record k { tcb = m₂ }) node (set_link t (record { prev = null; next = null }))
            node₂)))
