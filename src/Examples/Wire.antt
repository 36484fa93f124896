-- ===== src/Examples/Wire.antt =====
-- A byte order as hton and ntoh are documented for a little-endian host, and two frames.
use minichat.Base.{ℕ, ◌+◌, ◌*◌, ◌/◌, ◌%◌, refl, [], codes, arith}
use minichat.Wire.{ByteOrder}
use minichat.Wire.Frame.{Frame, IsValid}

abbrev swap : ℕ → ℕ
swap x = x % 256 * 256 + x / 256

abbrev pub little_endian : ByteOrder
little_endian = record {
  hton = swap;
  ntoh = swap;
  hton_swaps = λ x h. refl;
  ntoh_swaps = λ x h. refl;
}

abbrev pub hello : Frame
hello = record { msg_id = 1005; payload = codes "hello" }

abbrev pub empty : Frame
empty = record { msg_id = 1023; payload = [] }

pub hello-IsValid : IsValid hello
hello-IsValid = record { id_fits = omega arith; payload_fits = omega arith }

pub empty-IsValid : IsValid empty
empty-IsValid = record { id_fits = omega arith; payload_fits = omega arith }
