-- ===== src/AudioRing/Race.antt =====
-- The ring of src/kerchunk_audio_ring.c with its producer and its consumer at work at once. A write is
-- a look at the space, the stores, and the publication of the head; a read is a look at what is there,
-- the loads, and the publication of the tail. The steps of the two interleave at will.
use mathlib.Core.List.{append_assoc}
use mathlib.Core.Path.{subst}
use kerchunk.Prelude.{
  ℕ, ◌+◌, ◌%◌, ◌≤◌, ◌<◌, ◌≡◌, refl, ap, ◌∙◌, sym, ℤ, ltb, if◌then◌else◌, List, ◌++◌, length, arith,
  take, drop, take-append-drop, length-take,
}
use kerchunk.AudioRing.{Ring, ring_size, readable, writable, store_from, load_from}
use kerchunk.AudioRing.Window.{length-load_from, load_from-store_from_self, take-load_from}
use kerchunk.AudioRing.Fifo.{
  contents, IsValid, readable-head, readable-tail, contents-store_from, contents-publish,
  contents-consume,
}

-- Where the producer stands in `kerchunk_audio_ring_write`.
pub data Producer : Type 0 where
  no_write : Producer
  saw_space : ℕ → List ℤ → Producer
  has_stored : List ℤ → Producer

-- Where the consumer stands in `kerchunk_audio_ring_read`.
pub data Consumer : Type 0 where
  no_read : Consumer
  saw_there : ℕ → Consumer
  has_loaded : List ℤ → Consumer

-- The ring, the two threads, and what was published by either so far.
pub record Threads : Type 0 where
  pub ring : Ring
  pub producer : Producer
  pub consumer : Consumer
  pub written : List ℤ
  pub taken : List ℤ

abbrev pub count_of : ℕ → ℕ → ℕ
count_of limit wanted = if ltb limit wanted then limit else wanted

-- A step of either thread.
pub data ThreadStep : Threads → Threads → Type 0 where
  look_space :
      (s : Threads) (src : List ℤ)
      → s.producer ≡ no_write
      → ThreadStep s
          (record s { producer = saw_space (count_of (writable s.ring) (length src)) src })
  store_samples :
      (s : Threads) (n : ℕ) (src : List ℤ)
      → s.producer ≡ saw_space n src
      → ThreadStep s (record s {
        ring = record (s.ring) { buf = store_from s.ring.head (take n src) s.ring.buf };
        producer = has_stored (take n src);
      })
  publish_head :
      (s : Threads) (xs : List ℤ)
      → s.producer ≡ has_stored xs
      → ThreadStep s (record s {
        ring = record (s.ring) { head = (s.ring.head + length xs) % ring_size };
        producer = no_write;
        written = s.written ++ xs;
      })
  look_there :
      (s : Threads) (want : ℕ)
      → s.consumer ≡ no_read
      → ThreadStep s (record s { consumer = saw_there (count_of (readable s.ring) want) })
  load_samples :
      (s : Threads) (n : ℕ)
      → s.consumer ≡ saw_there n
      → ThreadStep s (record s { consumer = has_loaded (load_from s.ring.tail n s.ring.buf) })
  publish_tail :
      (s : Threads) (xs : List ℤ)
      → s.consumer ≡ has_loaded xs
      → ThreadStep s (record s {
        ring = record (s.ring) { tail = (s.ring.tail + length xs) % ring_size };
        consumer = no_read;
        taken = s.taken ++ xs;
      })

pub data Interleaved (s : Threads) : Threads → Type 0 where
  at_start : Interleaved s s
  then_step : {t u : Threads} → Interleaved s t → ThreadStep t u → Interleaved s u

-- What a thread saw still holds, whatever the other did meanwhile.
abbrev ProducerValid : Ring → Producer → Type 0
ProducerValid r no_write = Unit {0}
ProducerValid r (saw_space n src) = (n ≤ writable r) × (n ≤ length src)
ProducerValid r (has_stored xs) =
    (length xs ≤ writable r) × (load_from r.head (length xs) r.buf ≡ xs)

abbrev ConsumerValid : Ring → Consumer → Type 0
ConsumerValid r no_read = Unit {0}
ConsumerValid r (saw_there n) = n ≤ readable r
ConsumerValid r (has_loaded xs) =
    (length xs ≤ readable r) × (load_from r.tail (length xs) r.buf ≡ xs)

-- Nothing is lost, doubled or reordered, and each thread's view is good.
pub record InOrder (s : Threads) : Type 0 where
  pub valid : IsValid s.ring
  pub producer_ok : ProducerValid s.ring s.producer
  pub consumer_ok : ConsumerValid s.ring s.consumer
  pub in_order : s.taken ++ contents s.ring ≡ s.written

-- A producer at work keeps its view when the consumer takes samples.
producer-tail :
    (r : Ring) (p : Producer) (n : ℕ)
    → IsValid r
    → n ≤ readable r
    → ProducerValid r p
    → ProducerValid (record r { tail = (r.tail + n) % ring_size }) p
unfolding writable
producer-tail r no_write n v h ok = tt
producer-tail r (saw_space k src) n v h ok = omega (arith, readable-tail r n v h)
producer-tail r (has_stored xs) n v h ok = (omega (arith, readable-tail r n v h), ok.1)

-- A consumer at work keeps its view when the producer publishes.
consumer-head :
    (r : Ring) (c : Consumer) (n : ℕ)
    → IsValid r
    → n ≤ writable r
    → ConsumerValid r c
    → ConsumerValid (record r { head = (r.head + n) % ring_size }) c
consumer-head r no_read n v h ok = tt
consumer-head r (saw_there k) n v h ok = omega (arith, readable-head r n v h)
consumer-head r (has_loaded xs) n v h ok = (omega (arith, readable-head r n v h), ok.1)

-- Stores behind the head leave the samples that wait.
consumer-store_from :
    (r : Ring) (c : Consumer) (xs : List ℤ)
    → IsValid r
    → length xs ≤ writable r
    → ConsumerValid r c
    → ConsumerValid (record r { buf = store_from r.head xs r.buf }) c
unfolding readable
consumer-store_from r no_read xs v h ok = tt
consumer-store_from r (saw_there n) xs v h ok = ok
consumer-store_from r (has_loaded ys) xs v h ok =
    let b = store_from r.head xs r.buf in
    let k = length ys in
    (
      ok.0,
      sym (take-load_from k r.tail (readable r) b ok.0)
          ∙ ap (take k) (contents-store_from r xs v h)
          ∙ take-load_from k r.tail (readable r) r.buf ok.0
          ∙ ok.1,
    )

contents-store :
    (r : Ring) (xs : List ℤ)
    → IsValid r
    → length xs ≤ writable r
    → contents (record r { buf = store_from r.head xs r.buf }) ≡ contents r
unfolding readable
contents-store r xs v h = contents-store_from r xs v h

writable-store : (r : Ring) (b : ℕ → ℤ) → writable (record r { buf = b }) ≡ writable r
unfolding writable
writable-store r b = refl

writable-lt : (r : Ring) → writable r < ring_size
unfolding writable
writable-lt r = omega arith

stored-ok :
    (r : Ring) (n : ℕ) (src : List ℤ)
    → n ≤ writable r
    → n ≤ length src
    → ProducerValid
        (record r { buf = store_from r.head (take n src) r.buf })
        (has_stored (take n src))
stored-ok r n src h k =
    let len : length (take n src) ≡ n = omega (arith, length-take n src) in
    let xs = take n src in
    (
      omega (arith, writable-store r (store_from r.head xs r.buf)),
      load_from-store_from_self r.head xs r.buf (omega (arith, writable-lt r)),
    )

loaded-ok :
    (r : Ring) (n : ℕ) → n ≤ readable r → ConsumerValid r (has_loaded (load_from r.tail n r.buf))
loaded-ok r n h =
    let len = length-load_from r.tail n r.buf in
    (omega arith, ap (λ k. load_from r.tail k r.buf) len)

-- What the consumer loaded is the front of what waits.
taken-contents :
    (r : Ring) (xs taken : List ℤ)
    → IsValid r
    → ConsumerValid r (has_loaded xs)
    → (taken ++ xs) ++ contents (record r { tail = (r.tail + length xs) % ring_size })
      ≡ taken ++ contents r
taken-contents r xs taken v ok =
    let k = length xs in
    let front : xs ≡ take k (contents r) =
      sym ok.1 ∙ sym (take-load_from k r.tail (readable r) r.buf ok.0) in
    append_assoc taken xs (contents (record r { tail = (r.tail + k) % ring_size }))
    ∙ ap (λ l. taken ++ l)
        (ap (λ l. xs ++ l) (contents-consume r k v ok.0)
          ∙ ap (λ l. l ++ drop k (contents r)) front
          ∙ take-append-drop k (contents r))

ThreadStep-InOrder : {s t : Threads} → ThreadStep s t → InOrder s → InOrder t
ThreadStep-InOrder (look_space s src e) o = record {
  valid = o.valid;
  producer_ok = (ground arith, ground arith);
  consumer_ok = o.consumer_ok;
  in_order = o.in_order;
}
ThreadStep-InOrder (store_samples s n src e) o =
    let r = s.ring in
    let (fits, there) = subst (ProducerValid r) e o.producer_ok in
    let small : length (take n src) ≤ writable r = omega (arith, length-take n src) in
    record {
      valid = record { head_lt = o.valid.head_lt; tail_lt = o.valid.tail_lt };
      producer_ok = stored-ok r n src fits there;
      consumer_ok = consumer-store_from r s.consumer (take n src) o.valid small o.consumer_ok;
      in_order = ap (λ l. s.taken ++ l) (contents-store r (take n src) o.valid small) ∙ o.in_order;
    }
ThreadStep-InOrder (publish_head s xs e) o =
    let r = s.ring in
    let (fits, there) = subst (ProducerValid r) e o.producer_ok in
    record {
      valid = record { head_lt = omega arith; tail_lt = o.valid.tail_lt };
      producer_ok = tt;
      consumer_ok = consumer-head r s.consumer (length xs) o.valid fits o.consumer_ok;
      in_order =
          ap (λ l. s.taken ++ l) (contents-publish r xs o.valid fits there)
          ∙ sym (append_assoc s.taken (contents r) xs)
          ∙ ap (λ l. l ++ xs) o.in_order;
    }
ThreadStep-InOrder (look_there s want e) o = record {
  valid = o.valid;
  producer_ok = o.producer_ok;
  consumer_ok = ground arith;
  in_order = o.in_order;
}
ThreadStep-InOrder (load_samples s n e) o =
    let there : n ≤ readable s.ring = subst (ConsumerValid s.ring) e o.consumer_ok in
    record {
      valid = o.valid;
      producer_ok = o.producer_ok;
      consumer_ok = loaded-ok s.ring n there;
      in_order = o.in_order;
    }
ThreadStep-InOrder (publish_tail s xs e) o =
    let r = s.ring in
    let ok : ConsumerValid r (has_loaded xs) = subst (ConsumerValid r) e o.consumer_ok in
    record {
      valid = record { head_lt = o.valid.head_lt; tail_lt = omega arith };
      producer_ok = producer-tail r s.producer (length xs) o.valid ok.0 o.producer_ok;
      consumer_ok = tt;
      in_order = taken-contents r xs s.taken o.valid ok ∙ o.in_order;
    }

-- However the steps of one producer and one consumer interleave, from a state in order: the
-- samples taken and those that wait are together the samples written, in order, and each thread's
-- view of the ring stays good.
pub Interleaved-InOrder : {s t : Threads} → Interleaved s t → InOrder s → InOrder t
Interleaved-InOrder at_start o = o
Interleaved-InOrder (then_step i st) o = ThreadStep-InOrder st (Interleaved-InOrder i o)
