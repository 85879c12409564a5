-- ===== src/Memory/Blocks/Merge.antt =====
-- The two merging loops, and with them the release of a block.
use vk.Prelude.{
  ℕ, ◌+◌, ◌%◌, ◌^◌, ◌<◌, ◌≡◌, refl, ◌∙◌, Bool, true, false, List, [], ◌∷◌, ◌==◌, arith, Bool-cases,
  inl, inr, ap₂, subst, sym, ==_refl,
}
use vk.Memory.Blocks.{Block, block, merge_before, merge_after, unwind, release}
use vk.Memory.Blocks.Laws.{
  Tiles, TilesDown, Coalesced, used, Tiles-le, unwind-Tiles, unwind-Coalesced_of_free, used-unwind,
}

module _ (free : ℕ) where
  -- What the walk over `prev` leaves: the blocks before, and the grown block.
  pub record MergedBefore (s : ℕ) (before : List Block) (c : Block) (out : List Block × Block)
      : Type 0 where
    pub tiles : TilesDown s out.0 out.1.base
    pub end : out.1.base + out.1.size ≡ c.base + c.size
    pub kind : (out.1.kind == free) ≡ true
    pub apart : Coalesced free true out.0
    pub same : used free out.0 ≡ used free before

  pub merge_before_lem :
      (q : Bool) (s : ℕ) (before : List Block) (c : Block)
      → TilesDown s before c.base
      → c.base + c.size < 2 ^ 32
      → (c.kind == free) ≡ true
      → Coalesced free q before
      → MergedBefore s before c (merge_before free before c)
  unfolding merge_before
  merge_before_lem q s [] c t h k d = record {
    tiles = t;
    end = refl;
    kind = k;
    apart = tt;
    same = refl;
  }
  merge_before_lem q s (m ∷ ms) c t h k d = elim (Bool-cases (m.kind == free)) [
    | inl e ↦
        let grown : Block = block m.base ((m.size + c.size) % 2 ^ 32) m.kind in
        let d' : Coalesced free true ms = rw e at d.1 in
        let ih = merge_before_lem true s ms grown t.1 (omega arith) e d' in
        rw e (record {
          tiles = ih.tiles;
          end = omega (arith, ih.end);
          kind = ih.kind;
          apart = ih.apart;
          same = rw e ih.same;
        })
    | inr e ↦ rw e (record { tiles = t; end = refl; kind = k; apart = (e, d.1); same = refl })
  ]

  -- The walk over `next`, the same way.
  pub record MergedAfter (c : Block) (after : List Block) (e : ℕ) (out : List Block) : Type 0 where
    pub tiles : Tiles c.base out e
    pub apart : Coalesced free false out
    pub same : used free out ≡ used free after

  pub merge_after_lem :
      (q : Bool) (c : Block) (after : List Block) (e : ℕ)
      → Tiles c.base (c ∷ after) e
      → e < 2 ^ 32
      → (c.kind == free) ≡ true
      → Coalesced free q after
      → MergedAfter c after e (merge_after free c after)
  unfolding merge_after
  merge_after_lem q c [] e t h k d = record { tiles = t; apart = (refl, tt); same = rw k refl }
  merge_after_lem q c (m ∷ ms) e t h k d = elim (Bool-cases (m.kind == free)) [
    | inl f ↦
        let le = Tiles-le (c.base + c.size + m.size) ms e t.1.1 in
        let grown : Block = block c.base ((c.size + m.size) % 2 ^ 32) c.kind in
        let d' : Coalesced free true ms = rw f at d.1 in
        let t' : Tiles c.base (grown ∷ ms) e =
          (refl, subst (λ x. Tiles x ms e) (omega (arith, le)) t.1.1) in
        let ih = merge_after_lem true grown ms e t' h k d' in
        rw f (record { tiles = ih.tiles; apart = ih.apart; same = rw f ih.same })
    | inr f ↦
        rw f (record { tiles = t; apart = (refl, (ground arith, d.1)); same = rw (k, f) refl })
  ]

  -- What releasing the block between `before` and `after` leaves.
  pub record Released (s : ℕ) (before after : List Block) (e : ℕ) (out : List Block) : Type 0 where
    pub tiles : Tiles s out e
    pub apart : Coalesced free false out
    pub same : used free out ≡ unwind (used free before) (used free after)

  pub release_lem :
      (q : Bool) (s : ℕ) (before : List Block) (b : Block) (after : List Block) (e : ℕ)
      → TilesDown s before b.base
      → Tiles b.base (b ∷ after) e
      → e < 2 ^ 32
      → Coalesced free q before
      → Coalesced free q after
      → Released s before after e (release free before b after)
  unfolding release
  release_lem q s before b after e d t h p r =
      let le = Tiles-le (b.base + b.size) after e t.1 in
      let freed : Block = record b { kind = free } in
      let back = merge_before_lem q s before freed d (omega (arith, le)) (==_refl free) p in
      let out = merge_before free before freed in
      let t' : Tiles out.1.base (out.1 ∷ after) e =
        (refl, subst (λ x. Tiles x after e) (sym back.end) t.1) in
      let front = merge_after_lem q out.1 after e t' h back.kind r in
      record {
        tiles =
            unwind-Tiles s out.1.base e out.0 (merge_after free out.1 after) back.tiles front.tiles;
        apart =
            unwind-Coalesced_of_free free out.0 (merge_after free out.1 after) back.apart
              front.apart;
        same =
            used-unwind free out.0 (merge_after free out.1 after) ∙ ap₂ unwind back.same front.same;
      }
