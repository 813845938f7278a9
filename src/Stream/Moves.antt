-- ===== src/Stream/Moves.antt =====
-- How the operations of a stream move its position: a read leaves the bytes alone, goes forward and
-- stops at the end at the latest.
use silverfir.Prelude.{
  ℕ, zero, suc, ◌+◌, ◌≤◌, ◌<◌, ◌≡◌, ◌≢◌, refl, ◌∙◌, ◌%◌, ◌^◌, pos, arith, length,
}
use silverfir.Result.{ok, fault}
use silverfir.Result.Post.{Post, Post-of_ok}
use silverfir.Stream.Leb.{
  add_group, unsigned_loop, signed_loop, read_vu32, read_vu64, read_vi32, read_vi64,
}
use silverfir.Stream.{
  Stream, IsValid, byte, read_u32, read_u8, read_vu7, read_vi7, read_f32, read_f64, seek,
}

pub record IsAhead (st st' : Stream) : Type 0 where
  pub same : st'.s ≡ st.s
  pub ahead : st.p < st'.p
  pub within : st'.p ≤ length st.s

-- The same without a step.
pub record IsFrom (st st' : Stream) : Type 0 where
  pub same : st'.s ≡ st.s
  pub onward : st.p ≤ st'.p
  pub within : st'.p ≤ length st.s

abbrev pub Reads {ℓ} : {A : Type ℓ} → Stream → A × Stream → Type 0
Reads st (a, st') = IsAhead st st'

read_u32-ahead : (st : Stream) (x : ℕ × Stream) → read_u32 st ≡ ok x → Reads st x
unfolding read_u32
read_u32-ahead st x e = ground arith

read_u32-ne-fault : (st : Stream) → read_u32 st ≢ fault
unfolding read_u32
read_u32-ne-fault st = ground arith

read_u8-ahead : (st : Stream) (x : ℕ × Stream) → read_u8 st ≡ ok x → Reads st x
unfolding read_u8
read_u8-ahead st x e = ground arith

read_u8-ne-fault : (st : Stream) → read_u8 st ≢ fault
unfolding read_u8
read_u8-ne-fault st = ground arith

read_vu7-ahead : (st : Stream) (x : ℕ × Stream) → read_vu7 st ≡ ok x → Reads st x
unfolding read_vu7
read_vu7-ahead st x e = ground arith

read_vu7-ne-fault : (st : Stream) → read_vu7 st ≢ fault
unfolding read_vu7
read_vu7-ne-fault st = ground arith

pub read_vi7-ahead : (st : Stream) (x : ℕ × Stream) → read_vi7 st ≡ ok x → Reads st x
unfolding read_vi7
read_vi7-ahead st x e = ground arith

read_vi7-ne-fault : (st : Stream) → read_vi7 st ≢ fault
unfolding read_vi7
read_vi7-ne-fault st = ground arith

read_f32-ahead : (st : Stream) (x : ℕ × Stream) → read_f32 st ≡ ok x → Reads st x
unfolding read_f32
read_f32-ahead st x e = ground arith

read_f32-ne-fault : (st : Stream) → read_f32 st ≢ fault
unfolding read_f32
read_f32-ne-fault st = ground arith

read_f64-ahead : (st : Stream) (x : ℕ × Stream) → read_f64 st ≡ ok x → Reads st x
unfolding read_f64
read_f64-ahead st x e = ground arith

read_f64-ne-fault : (st : Stream) → read_f64 st ≢ fault
unfolding read_f64
read_f64-ne-fault st = ground arith

unsigned_loop-ahead :
    (rounds w : ℕ) (st : Stream) (offset shift result : ℕ) (x : ℕ × Stream)
    → unsigned_loop rounds w st offset shift result ≡ ok x
    → Reads st x
unfolding unsigned_loop
unsigned_loop-ahead zero w st offset shift result x e = cc
unsigned_loop-ahead (suc rounds) w st offset shift result x e = ground (
  arith,
  unsigned_loop-ahead rounds w st (offset + 1) (shift + 7)
      (add_group w result (byte st offset) shift) x,
)

unsigned_loop-ne-fault :
    (rounds w : ℕ) (st : Stream) (offset shift result : ℕ)
    → unsigned_loop rounds w st offset shift result ≢ fault
unfolding unsigned_loop
unsigned_loop-ne-fault zero w st offset shift result = λ e. cc
unsigned_loop-ne-fault (suc rounds) w st offset shift result = ground (
  arith,
  unsigned_loop-ne-fault rounds w st (offset + 1) (shift + 7)
      (add_group w result (byte st offset) shift),
)

signed_loop-ahead :
    (rounds w : ℕ) (st : Stream) (offset shift result : ℕ) (x : ℕ × Stream)
    → signed_loop rounds w st offset shift result ≡ ok x
    → Reads st x
unfolding signed_loop
signed_loop-ahead zero w st offset shift result x e = cc
signed_loop-ahead (suc rounds) w st offset shift result x e = ground (
  arith,
  signed_loop-ahead rounds w st (offset + 1) (shift + 7)
      (add_group 64 result (byte st offset) shift % 2 ^ w) x,
)

signed_loop-ne-fault :
    (rounds w : ℕ) (st : Stream) (offset shift result : ℕ)
    → signed_loop rounds w st offset shift result ≢ fault
unfolding signed_loop
signed_loop-ne-fault zero w st offset shift result = λ e. cc
signed_loop-ne-fault (suc rounds) w st offset shift result = ground (
  arith,
  signed_loop-ne-fault rounds w st (offset + 1) (shift + 7)
      (add_group 64 result (byte st offset) shift % 2 ^ w),
)

seek-IsFrom : (st : Stream) (n : ℕ) (st' : Stream) → seek st (pos n) ≡ ok st' → IsFrom st st'
unfolding seek
seek-IsFrom st n st' e = ground arith

seek-ne-fault : (st : Stream) (n : ℕ) → seek st (pos n) ≢ fault
unfolding seek
seek-ne-fault st n = ground arith

pub IsAhead-trans : {a b c : Stream} → IsAhead a b → IsAhead b c → IsAhead a c
IsAhead-trans {a} h k = record {
  same = k.same ∙ h.same;
  ahead = omega arith;
  within = rw (h.same) at k.within;
}

pub IsAhead-from : {a b c : Stream} → IsAhead a b → IsFrom b c → IsAhead a c
IsAhead-from {a} h k = record {
  same = k.same ∙ h.same;
  ahead = omega arith;
  within = rw (h.same) at k.within;
}

pub IsFrom-refl : (st : Stream) → IsValid st → IsFrom st st
IsFrom-refl st v = record { same = refl; onward = omega arith; within = v }

pub IsAhead-IsFrom : {a b : Stream} → IsAhead a b → IsFrom a b
IsAhead-IsFrom h = record { same = h.same; onward = omega arith; within = h.within }

pub IsFrom-trans : {a b c : Stream} → IsFrom a b → IsFrom b c → IsFrom a c
IsFrom-trans {a} h k = record {
  same = k.same ∙ h.same;
  onward = omega arith;
  within = rw (h.same) at k.within;
}

-- The reads that fail rather than leave the buffer, as one rule for each.
module _ {F : Type 0} (st : Stream) where
  pub read_u32-Post : Post (Reads st) F (read_u32 st)
  read_u32-Post = Post-of_ok (read_u32 st) (read_u32-ne-fault st) (read_u32-ahead st)

  pub read_u8-Post : Post (Reads st) F (read_u8 st)
  read_u8-Post = Post-of_ok (read_u8 st) (read_u8-ne-fault st) (read_u8-ahead st)

  pub read_vu7-Post : Post (Reads st) F (read_vu7 st)
  read_vu7-Post = Post-of_ok (read_vu7 st) (read_vu7-ne-fault st) (read_vu7-ahead st)

  pub read_vi7-Post : Post (Reads st) F (read_vi7 st)
  read_vi7-Post = Post-of_ok (read_vi7 st) (read_vi7-ne-fault st) (read_vi7-ahead st)

  pub read_f32-Post : Post (Reads st) F (read_f32 st)
  read_f32-Post = Post-of_ok (read_f32 st) (read_f32-ne-fault st) (read_f32-ahead st)

  pub read_f64-Post : Post (Reads st) F (read_f64 st)
  read_f64-Post = Post-of_ok (read_f64 st) (read_f64-ne-fault st) (read_f64-ahead st)

  pub read_vu32-Post : Post (Reads st) F (read_vu32 st)
  unfolding read_vu32
  read_vu32-Post =
      Post-of_ok _ (unsigned_loop-ne-fault 5 32 st 0 0 0) (unsigned_loop-ahead 5 32 st 0 0 0)

  pub read_vu64-Post : Post (Reads st) F (read_vu64 st)
  unfolding read_vu64
  read_vu64-Post =
      Post-of_ok _ (unsigned_loop-ne-fault 10 64 st 0 0 0) (unsigned_loop-ahead 10 64 st 0 0 0)

  pub read_vi32-Post : Post (Reads st) F (read_vi32 st)
  unfolding read_vi32
  read_vi32-Post =
      Post-of_ok _ (signed_loop-ne-fault 5 32 st 0 0 0) (signed_loop-ahead 5 32 st 0 0 0)

  pub read_vi64-Post : Post (Reads st) F (read_vi64 st)
  unfolding read_vi64
  read_vi64-Post =
      Post-of_ok _ (signed_loop-ne-fault 10 64 st 0 0 0) (signed_loop-ahead 10 64 st 0 0 0)

  pub seek-Post : (n : ℕ) → Post (IsFrom st) F (seek st (pos n))
  seek-Post n = Post-of_ok (seek st (pos n)) (seek-ne-fault st n) (seek-IsFrom st n)
