-- ===== src/Bin/PrintEvents/Lines.antt =====
-- How many lines a program that prints events has written, and that an event of a system call is one line.
use net_device_mapping.Bin.Display.Text.{newlines-append, newlines-to_string}
use net_device_mapping.Bin.PrintEvents.{History, syscall_monitor}
use net_device_mapping.Bin.PrintEvents.Printed.{delivered, main_of-stopped}
use net_device_mapping.Decimal.{to_string}
use net_device_mapping.Path.{Str, codes, concat}
use net_device_mapping.Prelude.{
  suc, ◌+◌, ◌≡◌, refl, ap, ◌∙◌, true, List, [], ◌∷◌, ◌++◌, map, ok, arith, length, All,
}
use net_device_mapping.SyscallMonitor.{
  EventType, EbpfEvent, fork, exec, exit, clone, unshare, setns,
}
use net_device_mapping.SyscallMonitor.Command.{command_as_string}
use net_device_mapping.SyscallMonitor.Show.{debug_kind, field, fields, debug_struct, debug_event}
use net_device_mapping.Util.LineCountWriter.{newlines}
use mathlib.Core.List.{append-nil}
use net_device_mapping.Util.OneshotRecv.{is_closed}
use net_device_mapping.Util.StoppableStream.{Receivers, recvs, new}

abbrev heading : Str
heading = codes "Monitoring specific syscalls from all processes"

-- The text of lines that `println!` writes.
abbrev pub output : List Str → Str
output [] = []
output (line ∷ lines) = concat (line ∷ codes "\n" ∷ output lines ∷ [])

-- A text of one line without its end.
abbrev IsLine : Str → Type 0
IsLine text = newlines text ≡ 0

append-IsLine : (xs ys : Str) → IsLine xs → IsLine ys → IsLine (xs ++ ys)
append-IsLine xs ys h k = omega (arith, newlines-append xs ys)

concat-IsLine : (texts : List Str) → All IsLine texts → IsLine (concat texts)
unfolding newlines
concat-IsLine [] h = refl
concat-IsLine (text ∷ texts) (h, hs) = append-IsLine text (concat texts) h (concat-IsLine texts hs)

comma : IsLine (codes ", ")
unfolding newlines
comma = refl

field-IsLine : (name value : Str) → IsLine name → IsLine value → IsLine (field name value)
unfolding newlines
field-IsLine name value h k =
    append-IsLine (name ++ codes ": ") value (append-IsLine name (codes ": ") h refl) k

AreLines : List (Str × Str) → Type 0
AreLines xs = All (λ x. IsLine x.0 × IsLine x.1) xs

fields-IsLine : (xs : List (Str × Str)) → AreLines xs → IsLine (fields xs)
unfolding AreLines
fields-IsLine [] h = unfold newlines in refl
fields-IsLine ((name, value) ∷ []) ((h, k), hs) = field-IsLine name value h k
fields-IsLine ((name, value) ∷ x ∷ xs) ((h, k), hs) =
    concat-IsLine (field name value ∷ codes ", " ∷ fields (x ∷ xs) ∷ [])
      (field-IsLine name value h k, (comma, (fields-IsLine (x ∷ xs) hs, tt)))

debug_struct-IsLine :
    (name : Str) (xs : List (Str × Str)) → IsLine name → AreLines xs → IsLine (debug_struct name xs)
debug_struct-IsLine name xs h hs =
    concat-IsLine (name ∷ codes " { " ∷ fields xs ∷ codes " }" ∷ [])
      (h, (unfold newlines in refl, (fields-IsLine xs hs, (unfold newlines in refl, tt))))

debug_kind-IsLine : (kind : EventType) → IsLine (debug_kind kind)
unfolding debug_kind newlines
debug_kind-IsLine fork = refl
debug_kind-IsLine exec = refl
debug_kind-IsLine exit = refl
debug_kind-IsLine clone = refl
debug_kind-IsLine unshare = refl
debug_kind-IsLine setns = refl

newlines-end : (text : Str) → newlines (codes "\n" ++ text) ≡ suc (newlines text)
unfolding newlines
newlines-end text = refl

output-lines : (lines : List Str) → All IsLine lines → newlines (output lines) ≡ length lines
output-lines [] h = unfold newlines in refl
output-lines (line ∷ lines) (h, hs) =
    newlines-append line (codes "\n" ++ (output lines ++ []))
    ∙ omega (
      arith,
      h,
      newlines-end (output lines ++ []),
      ap newlines (append-nil (output lines)),
      output-lines lines hs,
    )

module _ (debug_str : Str → Str) (one_line : (text : Str) → newlines (debug_str text) ≡ 0) where
  fields_of : EbpfEvent → List (Str × Str)
  fields_of e =
      (codes "kind", debug_kind e.kind)
      ∷ (codes "pid", to_string e.pid)
      ∷ (codes "tid", to_string e.tid)
      ∷ (codes "uid", to_string e.uid)
      ∷ (codes "gid", to_string e.gid)
      ∷ (codes "parent_pid", to_string e.parent_pid)
      ∷ (codes "command", debug_str (command_as_string e))
      ∷ []

  event-AreLines : (e : EbpfEvent) → AreLines (fields_of e)
  unfolding fields_of AreLines newlines
  event-AreLines e = (
    (refl, debug_kind-IsLine e.kind),
    (
      (refl, newlines-to_string e.pid),
      (
        (refl, newlines-to_string e.tid),
        (
          (refl, newlines-to_string e.uid),
          (
            (refl, newlines-to_string e.gid),
            ((refl, newlines-to_string e.parent_pid), ((refl, one_line (command_as_string e)), tt)),
          ),
        ),
      ),
    ),
  )

  debug_event-IsLine : (e : EbpfEvent) → IsLine (debug_event debug_str e)
  unfolding debug_event fields_of
  debug_event-IsLine e =
      debug_struct-IsLine (codes "EbpfEvent") (fields_of e) (unfold newlines in refl)
        (event-AreLines e)

  map-IsLine : (events : List EbpfEvent) → All IsLine (map (debug_event debug_str) events)
  map-IsLine [] = tt
  map-IsLine (e ∷ events) = (debug_event-IsLine e, map-IsLine events)

  length-map :
      (events : List EbpfEvent) → length (map (debug_event debug_str) events) ≡ length events
  length-map [] = refl
  length-map (e ∷ events) = ap suc (length-map events)

  module _ {B R S : Type 0} (E : Type 0) (rx : Receivers B R EbpfEvent S) where
    -- src/bin/syscall_monitor.rs has written one line for its heading and exactly one for each event that was
    -- delivered before the stop signal was taken, whatever the names of the processes. Its monitor and
    -- its handler were set up, and `Debug` shows a text without a newline.
    syscall_monitor-lines :
        (events : B) (stop_rx : R) (history later : History)
        → is_closed (recvs rx history (new events stop_rx)).1.stop ≡ true
        → newlines (
            output (
              (syscall_monitor {E = E} rx
                (debug_event debug_str)
                (ok events)
                (ok tt)
                stop_rx
                (history ++ later)).0))
          ≡ 1 + length (delivered (recvs rx history (new events stop_rx)).0)
    unfolding syscall_monitor
    syscall_monitor-lines events stop_rx history later taken =
        let shown = delivered (recvs rx history (new events stop_rx)).0 in
        let printed =
          main_of-stopped rx E (debug_event debug_str) heading events stop_rx history later taken in
        ap (λ l. newlines (output l)) printed
        ∙ output-lines (heading ∷ map (debug_event debug_str) shown)
            (unfold newlines in refl, map-IsLine shown)
        ∙ omega (arith, length-map shown)
