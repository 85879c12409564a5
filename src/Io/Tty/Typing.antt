-- ===== src/Io/Tty/Typing.antt =====
-- Lines that are typed, and read.
use vk.Prelude.{
  ℕ, suc, ◌+◌, ◌-◌, ◌*◌, ◌≤◌, ◌≡◌, refl, sym, ap, ap₂, ◌∙◌, Bool, true, false, if◌then◌else◌, List,
  [], ◌∷◌, ◌++◌, append_assoc, append-nil, All, length, length-append, Outcome, done, ◌>>=◌, arith,
}
use vk.Video.{Screen, vga_text_putc}
use vk.Io.Stream.Fifo.{contents}
use vk.Io.Tty.{Console, Termios, is_set, tty_input, same_group, tty_read, returned, error_none}
use vk.Io.Tty.Typed.{IsPlain, IsReady, IsReady-same, Typed, text, show_all, tty_input-Typed}
use vk.Io.Tty.Lines.{held, IsLine, Delivered}
use vk.Io.Tty.Reads.{tty_read-line}

-- The loop of an interrupt handler that is called for one character after another.
unfoldable pub type_all : ℕ → (ℕ → ℕ) → List ℕ → Console → Outcome Console
type_all rounds stack [] c = done c
type_all rounds stack (ch ∷ cs) c = tty_input rounds stack ch c >>= type_all rounds stack cs

Typed-cons :
    (ch : ℕ) (cs : List ℕ) (c c1 c2 : Console)
    → Typed (ch ∷ []) c c1
    → Typed cs c1 c2
    → Typed (ch ∷ cs) c c2
unfolding show_all
Typed-cons ch cs c c1 c2 s t = record {
  queue =
      t.queue
      ∙ ap (λ (l : List ℕ). l ++ cs) s.queue
      ∙ append_assoc (contents c.tty.keyboard_stream) (ch ∷ []) cs;
  echoed = t.echoed ∙ ap (λ (l : List ℕ). l ++ cs) s.echoed ∙ append_assoc (text c) (ch ∷ []) cs;
  shown = t.shown ∙ shown-cons c.is_current c1.is_current s.current s.shown;
  current = t.current ∙ s.current;
  same_held = t.same_held ∙ s.same_held;
  modes = t.modes ∙ s.modes;
  group = t.group ∙ s.group;
  foreground = t.foreground ∙ s.foreground;
}
  where
    shown-cons :
        (b b1 : Bool)
        → b1 ≡ b
        → c1.screen ≡ (if b then vga_text_putc ch 7 c.screen else c.screen)
        → (if b1 then show_all cs c1.screen else c1.screen)
          ≡ (if b then show_all cs (vga_text_putc ch 7 c.screen) else c.screen)
    shown-cons true b1 e f = rw (e, f) refl
    shown-cons false b1 e f = rw (e, f) refl

same_either : (b : Bool) (x : Screen) → x ≡ (if b then x else x)
same_either true x = refl
same_either false x = refl

-- Plain characters that are typed one after another, with a round for each call, in the default
-- modes, where both buffers have room for them: each is accepted; the stream of the keyboard has
-- them behind what was there, in order; and so has what the terminal shows.
pub type_all-Typed :
    (rounds n : ℕ) (stack : ℕ → ℕ) (cs : List ℕ) (c : Console)
    → All IsPlain cs
    → IsReady (length cs + n) c
    → (c' : Console) × (type_all (suc rounds) stack cs c ≡ done c') × Typed cs c c' × IsReady n c'
unfolding type_all show_all
type_all-Typed rounds n stack [] c plain r = (
  c,
  refl,
  record {
    queue = sym (append-nil (contents c.tty.keyboard_stream));
    echoed = sym (append-nil (text c));
    shown = same_either c.is_current c.screen;
    current = refl;
    same_held = refl;
    modes = refl;
    group = refl;
    foreground = refl;
  },
  IsReady-same r (omega arith),
)
type_all-Typed rounds n stack (ch ∷ cs) c plain r =
    let (c1, first, typed, ready) =
      tty_input-Typed rounds (length cs + n) stack ch c plain.0 (IsReady-same r (omega arith)) in
    let (c2, others, typed', ready') = type_all-Typed rounds n stack cs c1 plain.1 ready in
    (c2, rw first others, Typed-cons ch cs c c1 c2 typed typed', ready')

All-append : (P : ℕ → Type 0) (xs ys : List ℕ) → All P xs → All P ys → All P (xs ++ ys)
All-append P [] ys p q = q
All-append P (x ∷ xs) ys p q = (p.0, All-append P xs ys p.1 q)

-- A line of plain characters without a new line, typed with a new line behind it in the default
-- modes with a round for each call, where both buffers have room for it and there was nothing to
-- read, is accepted and shown behind what the terminal has shown; and a `tty_read` by a process of
-- the foreground group of at least twice as many bytes as there are then delivers exactly the line
-- with its new line, and leaves nothing.
pub tty_read-type_all :
    (rounds : ℕ) (stack : ℕ → ℕ) (thread : ℕ × ℕ) (m : ℕ → ℕ) (a count : ℕ) (c : Console)
    (line : List ℕ)
    → All IsPlain line
    → IsLine line
    → IsReady (length line + 1) c
    → same_group c.group c.tty.foreground_processes ≡ true
    → held c ≡ []
    → contents c.tty.keyboard_stream ≡ []
    → 2 * (length line + 1) ≤ count
    → (c1 : Console) × (type_all (suc rounds) stack (line ++ (10 ∷ [])) c ≡ done c1)
      × (text c1 ≡ text c ++ (line ++ (10 ∷ [])))
      × ((m' : ℕ → ℕ) × (c' : Console) × (tty_read thread m a count c1
            ≡ done (returned error_none m' c'))
          × Delivered m a (count - (length line + 1)) (line ++ (10 ∷ [])) [] m' c')
tty_read-type_all rounds stack thread m a count c line plain is_line r foreground nothing empty
      enough =
    let new_line : IsPlain 10 = (
      omega arith,
      omega arith,
      omega arith,
      omega arith,
      omega arith,
      omega arith,
      omega arith,
      omega arith,
      omega arith,
    ) in
    let (c1, run, typed, _) =
      type_all-Typed rounds 0 stack (line ++ (10 ∷ [])) c
        (All-append IsPlain line (10 ∷ []) plain (new_line, tt))
        (IsReady-same r (omega (arith, length-append line (10 ∷ [])))) in
    (
      c1,
      run,
      typed.echoed,
      tty_read-line thread m a count c1 (ap₂ same_group typed.group typed.foreground ∙ foreground)
          (ap icanon_of typed.modes ∙ ap icanon_of r.modes) line [] (typed.same_held ∙ nothing)
          is_line (typed.queue ∙ ap (λ (l : List ℕ). l ++ (line ++ (10 ∷ []))) empty) enough,
    )
  where
    icanon_of : Termios → Bool
    icanon_of t = is_set t.c_lflag 1
