-- ===== src/Tests/Utilities.antt =====
-- The utilities of src/util on concrete writers and receivers.
use net_device_mapping.Path.{codes}
use net_device_mapping.Prelude.{
  ℕ, suc, zero, ◌+◌, ◌%◌, ◌^◌, ◌≡◌, refl, Bool, true, false, List, [], ◌∷◌, ◌++◌, none, Result, ok,
  err, arith, length, take,
}
use net_device_mapping.Util.LineCountWriter.{Write, newlines, write}
use net_device_mapping.Util.LineCountWriter.Count.{Takes, all_taken, taken, Writes, write-newlines}
use net_device_mapping.Util.OneshotRecv.{Poll, ready, pending, from, poll, is_closed}
use net_device_mapping.Util.OneshotRecv.Fused.{polls, repeat, now, wait, polls-once}
use net_device_mapping.Util.StoppableStream.{
  Receivers, RecvError, closed, new, select, selects, recv, recvs,
}
use net_device_mapping.Util.StoppableStream.Stop.{recvs-stopped}

program : Unit {0}
unfolding newlines write from poll is_closed polls new select selects recv recvs
program = tt

-- A writer that keeps at most three bytes of a call.
abbrev narrow : Write (List ℕ)
narrow = record {
  write = λ buf kept. (ok (length (take 3 buf)), kept ++ take 3 buf);
  flush = λ kept. (ok tt, kept);
}

abbrev two_lines : List ℕ
two_lines = codes "a\nbc\n"

two_lines_taken : Takes narrow two_lines [] two_lines
two_lines_taken = taken 3 refl (omega arith) (taken 2 refl (omega arith) all_taken)

write-newlines_example :
    Writes narrow two_lines
      (record { inner = []; lines = 7 })
      (record { inner = two_lines; lines = (7 + newlines two_lines) % 2 ^ 64 })
write-newlines_example =
    write-newlines narrow two_lines [] two_lines 7 (omega arith) two_lines_taken

-- A receiver that answers after so many polls.
abbrev countdown : ℕ → Poll ℕ × ℕ
countdown zero = (ready 5, 0)
countdown (suc n) = (pending, n)

abbrev start : ℕ
start = 2

polls-once_example :
    (is_closed (from start) ≡ false)
    × (polls countdown (2 + suc 3) (from start)
        ≡ (repeat 2 pending ++ ready 5 ∷ repeat 3 pending, record { receiver = none }))
    × (is_closed (polls countdown (2 + suc 3) (from start)).1 ≡ true)
polls-once_example = polls-once countdown 2 3 2 5 (wait refl (wait refl (now refl)))

abbrev numbers : ℕ → Poll (Result RecvError ℕ) × ℕ
numbers n = (ready (ok n), suc n)

abbrev receivers : Receivers ℕ ℕ ℕ ℕ
receivers = record { poll_stream = numbers; poll_stop = countdown }

-- Two items are received before the signal is polled first.
abbrev history : List (List Bool)
history = (false ∷ []) ∷ (false ∷ []) ∷ (true ∷ []) ∷ []

run : recvs receivers history (new 10 0) ≡ (
  ready (ok 10) ∷ ready (ok 11) ∷ ready (err closed) ∷ [],
  record { stream = none; stop = record { receiver = none } },
)
unfolding program
run = refl

stopped : is_closed (recvs receivers history (new 10 0)).1.stop ≡ true
unfolding program
stopped = refl

recvs-stopped_example :
    ((recvs receivers history (new 10 0)).1.stream ≡ none)
    × (recvs receivers (history ++ history) (recvs receivers history (new 10 0)).1 ≡ (
      repeat (length (history ++ history)) (ready (err closed)),
      record { stream = none; stop = record { receiver = none } },
    ))
recvs-stopped_example = recvs-stopped receivers history (history ++ history) 10 0 stopped
