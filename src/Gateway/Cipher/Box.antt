-- ===== src/Gateway/Cipher/Box.antt =====
-- gateway_server/sdk/AESSBox.cpp, TeaAlgorithm.cpp: the table of a session, and the bytes that go through it.
use cpp_framework.Prelude.{
  get_elem?-set_self, get_elem?-set_ne, length-set, ℕ, zero, suc, ◌+◌, ◌≡◌, refl, ap, ◌∙◌, ◌<◌,
  some, [], ◌∷◌, ◌==◌, nat_key, Bytes, get_elem?, get_or, set, length, map, if◌then◌else◌, arith,
}
use cpp_framework.Gateway.Cipher.Field.{box_value, box_from, generate_box}
use cpp_framework.Gateway.Cipher.Table.{default_poly, unaffine, unaffine-box_value}

-- The loop of `formNewBoxes`: each pair of random bytes exchanges two bytes of the table. A byte is an
-- index below the 256 of the table.
unfoldable pub swap_at : ℕ → ℕ → Bytes → Bytes
swap_at i j box = set (set box i (get_or box j 0)) j (get_or box i 0)

unfoldable pub exchange : Bytes → Bytes → Bytes
exchange [] box = box
exchange (i ∷ []) box = box
exchange (i ∷ j ∷ randoms) box = exchange randoms (swap_at i j box)

-- `formNewBoxes`: the global table, and 64 exchanges.
unfoldable pub form_new_boxes : Bytes → Bytes → Bytes
form_new_boxes global_aesbox randoms = exchange randoms global_aesbox

-- `TeaAlgorithm::encrypt`, and `decrypt`, which does the same.
unfoldable pub encrypt : Bytes → Bytes → Bytes
encrypt box bytes = map (λ b. get_or box b 0) bytes

abbrev pub AreBelow : ℕ → Bytes → Type 0
AreBelow n [] = Unit
AreBelow n (b ∷ bytes) = (b < n) × AreBelow n bytes

-- The function takes each byte of the table back to its place.
abbrev pub IsInverse : (ℕ → ℕ) → Bytes → Type 0
IsInverse inverse box = (i v : ℕ) → get_elem? box i ≡ some v → inverse v ≡ i

-- How the other side follows an exchange.
abbrev unswap_at : ℕ → ℕ → Bytes → (ℕ → ℕ) → ℕ → ℕ
unswap_at i j box inverse v =
    if v == get_or box i 0 then j else if v == get_or box j 0 then i else inverse v

abbrev pub unexchange : Bytes → Bytes → (ℕ → ℕ) → ℕ → ℕ
unexchange [] box inverse = inverse
unexchange (i ∷ []) box inverse = inverse
unexchange (i ∷ j ∷ randoms) box inverse =
    unexchange randoms (swap_at i j box) (unswap_at i j box inverse)

get_elem?-get_or : (box : Bytes) (i : ℕ) → i < length box → get_elem? box i ≡ some (get_or box i 0)
get_elem?-get_or [] i h = absurd (omega arith)
get_elem?-get_or (x ∷ box) zero h = refl
get_elem?-get_or (x ∷ box) (suc i) h = get_elem?-get_or box i (omega arith)

get_elem?-set :
    (box : Bytes) (i k v : ℕ)
    → i < length box
    → get_elem? (set box i v) k ≡ (if i == k then some v else get_elem? box k)
get_elem?-set box i k v h =
    ground (arith, get_elem?-set_self box i v h, get_elem?-set_ne box {i = i} {j = k} v)

get_elem?-swap_at :
    (box : Bytes) (i j k : ℕ)
    → i < length box
    → j < length box
    → get_elem? (swap_at i j box) k ≡ (
        if j == k
        then some (get_or box i 0)
        else if i == k
        then some (get_or box j 0)
        else get_elem? box k)
unfolding swap_at
get_elem?-swap_at box i j k p q =
    let long : j < length (set box i (get_or box j 0)) =
      omega (arith, length-set box i (get_or box j 0)) in
    ground (
      arith,
      get_elem?-set (set box i (get_or box j 0)) j k (get_or box i 0) long,
      get_elem?-set box i k (get_or box j 0) p,
    )

swap_at-IsInverse :
    (i j : ℕ) (box : Bytes) (inverse : ℕ → ℕ)
    → i < length box
    → j < length box
    → IsInverse inverse box
    → IsInverse (unswap_at i j box inverse) (swap_at i j box)
swap_at-IsInverse i j box inverse p q h k v found = ground (
  arith,
  get_elem?-swap_at box i j k p q,
  h i (get_or box i 0),
  h j (get_or box j 0),
  h k v,
  get_elem?-get_or box i p,
  get_elem?-get_or box j q,
)

length-swap_at : (i j : ℕ) (box : Bytes) → length (swap_at i j box) ≡ length box
unfolding swap_at
length-swap_at i j box =
    length-set (set box i (get_or box j 0)) j (get_or box i 0) ∙ length-set box i (get_or box j 0)

exchange-IsInverse :
    (randoms box : Bytes) (inverse : ℕ → ℕ)
    → AreBelow (length box) randoms
    → IsInverse inverse box
    → IsInverse (unexchange randoms box inverse) (exchange randoms box)
unfolding exchange
exchange-IsInverse [] box inverse b h = h
exchange-IsInverse (i ∷ []) box inverse b h = h
exchange-IsInverse (i ∷ j ∷ randoms) box inverse b h =
    let rest : AreBelow (length (swap_at i j box)) randoms = rw (length-swap_at i j box) b.1.1 in
    exchange-IsInverse randoms (swap_at i j box) (unswap_at i j box inverse) rest
      (swap_at-IsInverse i j box inverse b.0 b.1.0 h)

length-exchange : (randoms box : Bytes) → length (exchange randoms box) ≡ length box
unfolding exchange
length-exchange [] box = refl
length-exchange (i ∷ []) box = refl
length-exchange (i ∷ j ∷ randoms) box =
    length-exchange randoms (swap_at i j box) ∙ length-swap_at i j box

map-encrypt :
    (box bytes : Bytes) (inverse : ℕ → ℕ)
    → AreBelow (length box) bytes
    → IsInverse inverse box
    → map inverse (encrypt box bytes) ≡ bytes
unfolding encrypt
map-encrypt box [] inverse b h = refl
map-encrypt box (x ∷ bytes) inverse b h =
    rw (h x (get_or box x 0) (get_elem?-get_or box x b.0), map-encrypt box bytes inverse b.1 h) refl

get_elem?-box_from :
    (n mx k i v : ℕ) → get_elem? (box_from n mx k) i ≡ some v → (i < n) × (v ≡ box_value mx (k + i))
unfolding box_from
get_elem?-box_from zero mx k i v h = cc
get_elem?-box_from (suc n) mx k zero v h =
    let same : k + 0 ≡ k = omega arith in rw same (omega arith, ground arith)
get_elem?-box_from (suc n) mx k (suc i) v h =
    let r = get_elem?-box_from n mx (suc k) i v h in
    let same : k + suc i ≡ suc k + i = omega arith in rw same (omega (arith, r.0), r.1)

length-box_from : (n mx k : ℕ) → length (box_from n mx k) ≡ n
unfolding box_from
length-box_from zero mx k = refl
length-box_from (suc n) mx k = ap suc (length-box_from n mx (suc k))

-- The global table is one to one.
generate_box-IsInverse : IsInverse unaffine (generate_box default_poly)
unfolding generate_box
generate_box-IsInverse i v h =
    let at = get_elem?-box_from 256 default_poly 0 i v h in
    let same : 0 + i ≡ i = omega arith in
    ap unaffine (at.1 ∙ ap (box_value default_poly) same) ∙ unaffine-box_value i at.0

-- A client that knows the random bytes can undo the table of its session: the inverse of the global table,
-- followed along the exchanges, gives back every byte, for any random bytes and any bytes.
pub map-unexchange-encrypt :
    (randoms bytes : Bytes)
    → AreBelow 256 randoms
    → AreBelow 256 bytes
    → map
        (unexchange randoms (generate_box default_poly) unaffine)
        (encrypt (form_new_boxes (generate_box default_poly) randoms) bytes)
      ≡ bytes
unfolding form_new_boxes
map-unexchange-encrypt randoms bytes p q =
    let box = generate_box default_poly in
    let long : length box ≡ 256 = unfold generate_box in length-box_from 256 default_poly 0 in
    map-encrypt (exchange randoms box) bytes (unexchange randoms box unaffine)
      (rw (length-exchange randoms box, long) q)
      (exchange-IsInverse randoms box unaffine (rw long p) generate_box-IsInverse)
