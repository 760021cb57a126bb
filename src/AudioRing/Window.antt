-- ===== src/AudioRing/Window.antt =====
-- Reading and writing stretches of the array of src/kerchunk_audio_ring.c.
use kerchunk.Prelude.{
  ℕ, zero, suc, ◌+◌, ◌-◌, ◌%◌, ◌≤◌, ◌<◌, ◌≡◌, refl, ap, ◌∙◌, ℤ, List, [], ◌∷◌, ◌++◌, length, arith,
  take, drop,
}
use kerchunk.AudioRing.{ring_size, store, store_from, load_from}

-- A stretch depends on its position in the ring only.
pub load_from-mod :
    (p q n : ℕ) (buf : ℕ → ℤ)
    → p % ring_size ≡ q % ring_size
    → load_from p n buf ≡ load_from q n buf
unfolding load_from
load_from-mod p q zero buf e = refl
load_from-mod p q (suc n) buf e = ground (arith, load_from-mod (p + 1) (q + 1) n buf)

pub store_from-mod :
    (p q : ℕ) (xs : List ℤ) (buf : ℕ → ℤ)
    → p % ring_size ≡ q % ring_size
    → store_from p xs buf ≡ store_from q xs buf
unfolding store_from
store_from-mod p q [] buf e = refl
store_from-mod p q (x ∷ xs) buf e =
    ap (λ k. store_from (p + 1) xs (store buf k x)) e
    ∙ store_from-mod (p + 1) (q + 1) xs (store buf (q % ring_size) x) (omega arith)

pub length-load_from : (p n : ℕ) (buf : ℕ → ℤ) → length (load_from p n buf) ≡ n
unfolding load_from
length-load_from p zero buf = refl
length-load_from p (suc n) buf = ap suc (length-load_from (p + 1) n buf)

pub load_from-add :
    (p m n : ℕ) (buf : ℕ → ℤ)
    → load_from p (m + n) buf ≡ load_from p m buf ++ load_from (p + m) n buf
unfolding load_from
load_from-add p zero n buf = ground arith
load_from-add p (suc m) n buf =
    let count : suc m + n ≡ suc (m + n) = omega arith in
    let next : p + 1 + m ≡ p + suc m = omega arith in
    ap (λ k. load_from p k buf) count
    ∙ ap (λ l. buf (p % ring_size) ∷ l) (load_from-add (p + 1) m n buf)
    ∙ ap (λ k. (buf (p % ring_size) ∷ load_from (p + 1) m buf) ++ load_from k n buf) next

-- A store outside a stretch leaves it.
load_from-store :
    (p n q : ℕ) (x : ℤ) (buf : ℕ → ℤ)
    → p + n ≤ q
    → q < p + ring_size
    → load_from p n (store buf (q % ring_size) x) ≡ load_from p n buf
unfolding load_from
load_from-store p zero q x buf h k = refl
load_from-store p (suc n) q x buf h k = ground (arith, load_from-store (p + 1) n q x buf)

pub load_from-store_from :
    (p n q : ℕ) (xs : List ℤ) (buf : ℕ → ℤ)
    → p + n ≤ q
    → q + length xs ≤ p + ring_size
    → load_from p n (store_from q xs buf) ≡ load_from p n buf
unfolding store_from
load_from-store_from p n q [] buf h k = refl
load_from-store_from p n q (x ∷ xs) buf h k =
    load_from-store_from p n (q + 1) xs (store buf (q % ring_size) x) (omega arith) (omega arith)
    ∙ load_from-store p n q x buf h (omega arith)

-- What was stored is read back.
pub load_from-store_from_self :
    (q : ℕ) (xs : List ℤ) (buf : ℕ → ℤ)
    → length xs ≤ ring_size
    → load_from q (length xs) (store_from q xs buf) ≡ xs
unfolding load_from store_from
load_from-store_from_self q [] buf h = refl
load_from-store_from_self q (x ∷ xs) buf h =
    let b = store buf (q % ring_size) x in
    ground (arith, load_from-store_from q 1 (q + 1) xs b, load_from-store_from_self (q + 1) xs b)

pub take-load_from :
    (m p n : ℕ) (buf : ℕ → ℤ) → m ≤ n → take m (load_from p n buf) ≡ load_from p m buf
unfolding load_from
take-load_from zero p n buf h = refl
take-load_from (suc m) p zero buf h = ground arith
take-load_from (suc m) p (suc n) buf h = ground (arith, take-load_from m (p + 1) n buf)

pub drop-load_from :
    (m p n : ℕ) (buf : ℕ → ℤ) → m ≤ n → drop m (load_from p n buf) ≡ load_from (p + m) (n - m) buf
unfolding load_from
drop-load_from zero p n buf h = ground arith
drop-load_from (suc m) p zero buf h = ground arith
drop-load_from (suc m) p (suc n) buf h = ground (arith, drop-load_from m (p + 1) n buf)
