-- ===== src/Tests/RingTests.antt =====
-- Runs of src/kerchunk_audio_ring.c.
use kerchunk.Prelude.{◌≡◌, refl, ℤ, pos, List, [], ◌∷◌, arith, take}
use kerchunk.AudioRing.{Ring, readable, writable, repeat_fill, store_from}
use kerchunk.AudioRing.Fifo.{
  contents, IsValid, put_samples, get_samples, run_ring, run_fifo, run_ring_refines,
}
use kerchunk.AudioRing.Race.{
  Threads, no_write, saw_space, has_stored, no_read, saw_there, count_of, look_space, look_there,
  store_samples, InOrder, at_start, then_step, Interleaved-InOrder,
}

-- A ring one sample in front of the end of its array.
abbrev at_end : Ring
at_end = record { buf = λ i. pos 0; head = 262143; tail = 262143 }

at_end-IsValid : IsValid at_end
at_end-IsValid = ground arith

run_ring_refines_example :
    ((run_ring (put_samples (pos 1 ∷ pos 2 ∷ []) ∷ get_samples 3 ∷ []) at_end).0
      ≡ (run_fifo (put_samples (pos 1 ∷ pos 2 ∷ []) ∷ get_samples 3 ∷ []) (contents at_end)).0)
    × (contents (run_ring (put_samples (pos 1 ∷ pos 2 ∷ []) ∷ get_samples 3 ∷ []) at_end).1
        ≡ (run_fifo (put_samples (pos 1 ∷ pos 2 ∷ []) ∷ get_samples 3 ∷ []) (contents at_end)).1)
run_ring_refines_example =
    run_ring_refines (put_samples (pos 1 ∷ pos 2 ∷ []) ∷ get_samples 3 ∷ []) at_end at_end-IsValid

tiled : repeat_fill 5 (pos 7 ∷ pos 8 ∷ []) ≡ pos 7 ∷ pos 8 ∷ pos 7 ∷ pos 8 ∷ pos 7 ∷ []
unfolding repeat_fill
tiled = refl

abbrev samples : List ℤ
samples = pos 1 ∷ pos 2 ∷ []

-- The threads at rest, with the producer behind its look, and with the consumer behind its look too.
abbrev at_rest : Threads
at_rest = record {
  ring = at_end;
  producer = no_write;
  consumer = no_read;
  written = [];
  taken = [];
}

abbrev looked : Threads
looked = record at_rest { producer = saw_space (count_of (writable at_end) 2) samples }

abbrev both_looked : Threads
both_looked = record looked { consumer = saw_there (count_of (readable at_end) 1) }

abbrev half_written : Threads
half_written = record both_looked {
  ring = record at_end {
    buf = store_from 262143 (take (count_of (writable at_end) 2) samples) at_end.buf;
  };
  producer = has_stored (take (count_of (writable at_end) 2) samples);
}

contents-at_end : contents at_end ≡ []
unfolding readable kerchunk.AudioRing.load_from
contents-at_end = refl

Interleaved-InOrder_example : InOrder half_written
Interleaved-InOrder_example =
    Interleaved-InOrder {s = at_rest} {t = half_written}
      (then_step
        (then_step (then_step at_start (look_space at_rest samples refl))
          (look_there looked 1 refl))
        (store_samples both_looked (count_of (writable at_end) 2) samples refl))
      (record {
        valid = at_end-IsValid;
        producer_ok = tt;
        consumer_ok = tt;
        in_order = contents-at_end;
      })
