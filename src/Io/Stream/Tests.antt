-- ===== src/Io/Stream/Tests.antt =====
-- A stream as `iostream_alloc` makes it.
use vk.Prelude.{ℕ, ◌≡◌, refl, List, [], ◌∷◌}
use vk.Io.Stream.{IoStream, iostream_alloc}

-- Fresh memory of zeros, and a thread that waits.
abbrev fresh : IoStream
fresh = record {
  buffer = λ q. 0;
  count = 0;
  buffer_size = 100;
  attributes = 5;
  waiting = (1, 2) ∷ [];
}

allocated : record fresh { waiting = [] } ≡ iostream_alloc (λ q. 0)
unfolding iostream_alloc
allocated = refl

abbrev text : List ℕ
text = b'l' ∷ b's' ∷ b'\n' ∷ []
