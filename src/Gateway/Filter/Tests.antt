-- ===== src/Gateway/Filter/Tests.antt =====
-- gateway_server/sdk/my_filter.h: two messages through a table that exchanges pairs of bytes.
use cpp_framework.Prelude.{ℕ, zero, suc, ◌-◌, ◌<◌, ◌≡◌, false, List, [], ◌∷◌, Bytes, get_or, arith}
use cpp_framework.Router.Returns.{Returns}
use cpp_framework.Gateway.Filter.{MyFilter, id_of, bytes_wanna_write, write, read_stream}
use cpp_framework.Gateway.Filter.Frames.{AreMessages, IsUndone}
use cpp_framework.Gateway.Filter.Reading.{read_stream-write}

-- 255 at place 0 down to 0 at place 255: it undoes itself.
abbrev down_from : ℕ → Bytes
down_from zero = []
down_from (suc n) = n ∷ down_from n

abbrev filter : MyFilter
filter = record {
  header_read = false;
  header = 0;
  p_box = down_from 256;
  global_aesbox = down_from 256;
  random_util = record { i = 0; j = 0; next = 0 };
}

abbrev messages : List Bytes
messages = (233 ∷ 3 ∷ 7 ∷ 200 ∷ []) ∷ (5 ∷ 4 ∷ 0 ∷ 255 ∷ 31 ∷ []) ∷ []

get_or-down_from : (n b : ℕ) → b < n → get_or (down_from n) b 0 ≡ n - 1 - b
get_or-down_from zero b h = absurd (omega arith)
get_or-down_from (suc n) zero h = omega arith
get_or-down_from (suc n) (suc b) h = omega (arith, get_or-down_from n b (omega arith))

filter-IsUndone : IsUndone filter.p_box filter.p_box
filter-IsUndone b h =
    let once = get_or-down_from 256 b h in
    rw once (omega (arith, get_or-down_from 256 (255 - b) (omega arith)))

messages-AreMessages : AreMessages messages
unfolding id_of
messages-AreMessages = ground arith

read_stream-write_example :
    Returns
      (λ w.
        let r = read_stream 4 [] w.1 (record filter { header_read = false }) in
        (w.0 ≡ bytes_wanna_write messages) × (r.0 ≡ messages) × (r.1 ≡ []))
      (write (λ i. i) messages 0 [] filter)
read_stream-write_example =
    read_stream-write (λ i. i) messages filter filter filter-IsUndone messages-AreMessages
