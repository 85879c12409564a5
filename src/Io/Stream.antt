-- ===== src/Io/Stream.antt =====
-- io/stream.c: a buffer of bytes between a writer and the threads that read. A thread is named by
-- the pair of its process and itself. What the scheduler does with a thread is not modelled: a
-- function returns the threads that it wakes.
pub mod Fifo
mod Tests
use vk.Prelude.{
  bytes, poke, copy_in, ℕ, zero, suc, ◌+◌, ◌-◌, ◌*◌, ◌/◌, ◌%◌, ◌^◌, Bool, Option, none, some, List,
  [], ◌∷◌, ◌++◌, ◌&&◌, if◌then◌else◌, ◌==◌, leb, ltb, length, get_or,
}

-- IOSTREAM_DEFAULT_BUFFER_SIZE
abbrev pub iostream_default_buffer_size : ℕ
iostream_default_buffer_size = 100

-- `io_stream_t` without the file that belongs to it.
pub record IoStream : Type 0 where
  pub buffer : ℕ → ℕ
  pub count : ℕ
  pub buffer_size : ℕ
  pub attributes : ℕ
  pub waiting : List (ℕ × ℕ)

-- The bits IOSTREAM_ATTR_BLOCKING_READ, ..._BLOCKING_WRITE and ..._AUTOEXPAND (io/io.h).
abbrev pub blocking_write : ℕ → Bool
blocking_write a = a / 2 % 2 == 1

abbrev pub autoexpand : ℕ → Bool
autoexpand a = a / 4 % 2 == 1

-- The buffer that `kmalloc` returns holds any bytes.
pub iostream_alloc : (ℕ → ℕ) → IoStream
iostream_alloc garbage = record {
  buffer = garbage;
  count = 0;
  buffer_size = iostream_default_buffer_size;
  attributes = 1 + 4;
  waiting = [];
}

-- `memcpy(b, b + off, n)`, lower addresses first
abbrev pub copy_down : (ℕ → ℕ) → ℕ → ℕ → ℕ → ℕ
copy_down b off n q = if ltb q n then b (q + off) else b q

-- `memcpy(b + dest, b + i, n)`, one byte after another; what it has written is read again.
unfoldable pub copy_forward : (ℕ → ℕ) → ℕ → ℕ → ℕ → ℕ → ℕ
copy_forward b dest i zero = b
copy_forward b dest i (suc n) = copy_forward (poke b (dest + i) (b i)) dest (i + 1) n

-- `iostream_wait` for the given thread.
abbrev pub iostream_wait : ℕ × ℕ → IoStream → IoStream
iostream_wait thread s = record s { waiting = s.waiting ++ (thread ∷ []) }

-- What a read comes to: bytes, an error number, or a wait after which it begins anew.
pub data Read : Type 0 where
  got : List ℕ → IoStream → Read
  failed : ℕ → Read
  waits : IoStream → Read

pub iostream_getch : ℕ × ℕ → IoStream → Read
iostream_getch thread s =
    if ltb 0 s.count
    then got (s.buffer 0 ∷ [])
        (record s { count = s.count - 1; buffer = copy_down s.buffer 1 (s.count - 1) })
    else if s.attributes == 0
    then got (0 ∷ []) s
    else waits (iostream_wait thread s)

-- ERROR_FILE_FS_INTERNAL, ERROR_FILE_OUT and ERROR_EOF (error/error.h)
abbrev pub error_file_fs_internal : ℕ
error_file_fs_internal = 16

abbrev pub error_file_out : ℕ
error_file_out = 17

abbrev pub error_eof : ℕ
error_eof = 20

-- The first test is of `attributes | IOSTREAM_ATTR_ONE_BYTE`, which is never 0. So `count` is at
-- most 1 behind it, and the `memset` for the bytes that are missing is not reached.
pub iostream_read : ℕ × ℕ → ℕ → IoStream → Read
iostream_read thread count s =
    if ltb 1 count
    then failed error_file_fs_internal
    else if ltb 0 s.count
    then (let countmin = if ltb s.count count then s.count else count in
        got (bytes s.buffer 0 countmin) (record s {
          count = s.count - countmin;
          buffer = copy_down s.buffer countmin (s.count - countmin);
        }))
    else if s.attributes == 0
    then failed error_eof
    else waits (iostream_wait thread s)

-- What a write comes to: the stream and the threads that it wakes, an error number, a loop until
-- somebody reads, or bytes written behind the buffer.
pub data Written : Type 0 where
  wrote : IoStream → List (ℕ × ℕ) → Written
  failed : ℕ → Written
  spins : Written
  overrun : Written

-- The end of `iostream_write`, with `iostream_wake`.
pub put_bytes : List ℕ → IoStream → Written
put_bytes src s =
    if ltb s.buffer_size (s.count + length src)
    then overrun
    else wrote
        (record s {
          buffer = copy_in s.buffer s.count src;
          count = s.count + length src;
          waiting = [];
        })
        s.waiting

pub iostream_write : List ℕ → IoStream → Written
unfolding put_bytes
iostream_write src s =
    if ltb s.buffer_size ((s.count + length src) % 2 ^ 32)
    then (if autoexpand s.attributes
        then put_bytes src (record s { buffer_size = s.buffer_size * 2 % 2 ^ 32 })
        else if blocking_write s.attributes
        then spins
        else failed error_file_out)
    else put_bytes src s
