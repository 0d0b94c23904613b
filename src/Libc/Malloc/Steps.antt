-- ===== src/Libc/Malloc/Steps.antt =====
-- What marking a block as free and the search for a chunk do to the list of the chunks.
use cyancore.Common.{
  ℕ, ◌≡◌, refl, sym, ap, ◌∙◌, true, false, ◌&&◌, ◌||◌, not, Option, some, List, [], ◌∷◌, ◌++◌,
  arith, ltb, ◌==◌, Bool-cases, Option-cases, inl, inr,
}
use cyancore.Libc.Malloc.{Chunk, is_empty, take, fit, set_free}

-- `set_free` changes the flag of one chunk.
pub record IsFreed (x : ℕ) (cs ds : List Chunk) : Type 0 where
  pub before : List Chunk
  pub chunk : Chunk
  pub behind : List Chunk
  pub at : chunk.addr ≡ x
  pub was : cs ≡ before ++ chunk ∷ behind
  pub now : ds ≡ before ++ record chunk { free = true } ∷ behind

pub set_free-IsFreed : (x : ℕ) (cs ds : List Chunk) → set_free x cs ≡ some ds → IsFreed x cs ds
unfolding set_free
set_free-IsFreed x [] ds h = absurd (cc)
set_free-IsFreed x (c ∷ cs) ds h = elim (Bool-cases (c.addr == x)) [
  | inl hit ↦ record {
    before = [];
    chunk = c;
    behind = cs;
    at = ground arith;
    was = refl;
    now = ground arith;
  }
  | inr miss ↦ elim (Option-cases (set_free x cs)) [
    | inl e ↦ absurd (ground arith)
    | inr (es, e) ↦
        let r = set_free-IsFreed x cs es e in
        record {
          before = c ∷ r.before;
          chunk = r.chunk;
          behind = r.behind;
          at = r.at;
          was = ap (λ l. c ∷ l) r.was;
          now = let ds_lem : ds ≡ c ∷ es = ground arith in ds_lem ∙ ap (λ l. c ∷ l) r.now;
        }
  ]
]

-- The search of `malloc` stops at one chunk, and what lies before it and behind it stays.
pub record IsFit (n : ℕ) (cs : List Chunk) (p : Option ℕ) (ds : List Chunk) : Type 0 where
  pub before : List Chunk
  pub chunk : Chunk
  pub behind : List Chunk
  pub stops : (ltb chunk.size n || (not chunk.free && not (is_empty behind))) ≡ false
  pub was : cs ≡ before ++ chunk ∷ behind
  pub result : p ≡ (take n chunk behind).0
  pub now : ds ≡ before ++ (take n chunk behind).1

pub fit-IsFit :
    (n : ℕ) (cs : List Chunk) (p : Option ℕ) (ds : List Chunk)
    → fit n cs ≡ some (p, ds)
    → IsFit n cs p ds
unfolding fit
fit-IsFit n [] p ds h = absurd (cc)
fit-IsFit n (c ∷ cs) p ds h =
    elim (Bool-cases (ltb c.size n || (not c.free && not (is_empty cs)))) [
      | inr stop ↦
          let r : take n c cs ≡ (p, ds) = ground arith in
          record {
            before = [];
            chunk = c;
            behind = cs;
            stops = stop;
            was = refl;
            result = sym (ap (λ (t : Option ℕ × List Chunk). t.0) r);
            now = sym (ap (λ (t : Option ℕ × List Chunk). t.1) r);
          }
      | inl goes ↦ elim (Option-cases (fit n cs)) [
        | inl e ↦ absurd (ground arith)
        | inr ((q, es), e) ↦
            let r = fit-IsFit n cs q es e in
            let p_lem : p ≡ q = ground arith in
            let ds_lem : ds ≡ c ∷ es = ground arith in
            record {
              before = c ∷ r.before;
              chunk = r.chunk;
              behind = r.behind;
              stops = r.stops;
              was = ap (λ l. c ∷ l) r.was;
              result = p_lem ∙ r.result;
              now = ds_lem ∙ ap (λ l. c ∷ l) r.now;
            }
      ]
    ]
