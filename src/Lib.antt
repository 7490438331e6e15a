-- ===== src/Lib.antt =====
-- A model of net_device_mapping, a library that keeps track of the network namespaces of a Linux
-- system and of the processes and mounts that hold them.
--
-- The program's parts, and the files that model them:
--   * src/mount_monitor.rs rescans /proc/self/mountinfo and sends the difference to the last scan as
--     MountChange events. MountMonitor has its types, MountMonitor/Convert the From and Into
--     implementations, MountMonitor/Rescan `State` with new, send_mountinfo and update_mountinfo,
--     MountMonitor/Setup the set-up of monitor_mountinfo, and MountMonitor/Monitor its loop.
--   * src/nsid_monitor.rs turns the kernel's RTNLGRP_NSID messages into events: NsidMonitor,
--     with NsidMonitor/Subscription for its socket.
--   * src/syscall_monitor.rs sends the system calls of processes. SyscallMonitor has the types,
--     SyscallMonitor/Load get_object_path and the set-up of monitor_syscalls, SyscallMonitor/Layout the
--     read of an event out of bytes, SyscallMonitor/Poll poll_messages, SyscallMonitor/Command
--     command_as_string, SyscallMonitor/Show the Debug implementations. SyscallMonitor/Kernel is ebpf/fork_monitor.bpf.c, which writes these bytes.
--   * src/util/libmount_monitor.rs wraps libmount. Libmount/Calls has the methods of RcMonitor,
--     Libmount/SendMonitor those of SendMonitor, Libmount/Handles the reference counting, Libmount/Stream
--     the stream of both wrappers.
--   * The other files of src/util are Util/LineCountWriter, Util/OneshotRecv and Util/StoppableStream.
--   * src/net_device.rs asks for the links of a namespace from a thread of its own: NetDevice, with
--     NetDevice/DeviceInfo for the types that are not filled yet.
--   * src/bin/list_net_devices.rs is Bin/ListNetDevices, over NetDevice and Netns/Scan, with its log file
--     in Bin/ListNetDevices/Logged; Bin/Display is
--     the display of src/bin/netns_tracker.rs, over the tracker's states and Util/LineCountWriter, and
--     the listing of src/bin/list_all.rs; Bin/NetnsTracker is the main of src/bin/netns_tracker.rs, over
--     Util/StoppableStream and the display. Bin/PrintEvents is src/bin/nsid_monitor.rs,
--     src/bin/mount_monitor.rs and src/bin/syscall_monitor.rs.
--   * build.rs compiles the eBPF programs: Build, with Build/Object for where the object lies.
--   * src/netns.rs reads namespaces off the system. Netns has NetworkNamespace and its errors,
--     Netns/Scan `all`, Netns/Lookup `by_inode`, `by_path`, `by_file` and `by_id`, Netns/NsidQuery the
--     `id_by_*` functions, Netns/Procfs parse_procfs_path_start, Netns/PidsIterator and
--     Netns/MountsIterator the two iterators.
--   * src/netns_tracker.rs keeps a state from a first scan up to date with the events of the three
--     monitors. Tracker/State has `State`, Tracker/MountState `MountState`, Tracker/Search
--     find_netns_id_addition, Tracker/Events process_event and the loop, Tracker/Streams the four streams
--     of events and their merge, Tracker/Answers the requests for states. Tracker/Mirror follows mount
--     events from libmount's stream over the mount monitor to the tracker's MountState.
--
-- How the code is modelled:
--   * A HashMap is the list of its entries, in the order in which an iterator meets them (HashMap), a
--     HashSet the list of its elements (HashSet). Both replace a value in its place, and the theorems
--     about a map speak of `get` where the order does not matter.
--   * What the program asks of the system is a parameter, the record Host: a snapshot that answers a
--     glob, a metadata call, an open, a rtnetlink request. Every event of the tracker's loop comes with
--     a snapshot of its own, so the system may change between events.
--   * `Uuid::new_v4()` is a parameter, the sequence of its results, and a rescan counts its draws. The
--     theorems that need it ask that the results differ.
--   * A broadcast sender (Channel) records what it sent and carries an oracle for whether anyone
--     listens at the n-th message. The channel's capacity is not modelled.
--   * std's path components, UTF-8 test and u64 parser are written out in Path and Decimal, since the
--     parser of /proc paths rests on them; the mountinfo crate's result and the rtnetlink messages are
--     input (Mountinfo, Netlink). Decimal prints a number on fuel n + 1, more than it has digits.
--   * A method that returns `&mut` returns what it found, and the caller's write is a function of its
--     own. The loops of the monitors and of the tracker recur on the list
--     of what wakes them.
--   * A part of the rescan goes on, stops at a closed channel, or panics at an index (`Flow`).
--   * The C functions of libmount, the kernel's helpers for eBPF programs, the receivers of the async
--     crates and the questions of a thread are parameters, records of functions. An item of the ring
--     buffer is its bytes, as a little-endian machine lays them out. Whether bpf_ringbuf_output finds room
--     for it is input, since the programs ignore its result.
--   * The inner loop of a libmount stream recurs on fuel: more than the number of changes that libmount
--     reports before it reports no more of them or an error.
--   * Lossy decoding of UTF-8, the parser of paths and the stable sort of std are written out
--     (Path/Lossy, Path/Parse, Sorting). Sorting/Order has when a sort forgets the input's order.
--
--   * A program is given the results of what it sets up and the wakes of each call that it waits for; the
--     futures that it spawns are the loops of the monitors and of the tracker. The terminal takes what is
--     written to it.
--   * A receiver that does not lag behind is a queue of its messages (Util/StoppableStream/Queue).
--   * A loop that nothing more wakes waits, which is a value of its own where it matters. What the kernel's
--     id messages announce is described apart from the code in NsidMonitor/Messages.
--   * The build script keeps a list of what it did, and the system's answers may depend on that list.
--
-- Not modelled: the set-up of the ring buffer and of file descriptors (what wakes a loop is its input),
-- the scheduling of the spawned tasks, errors of the terminal, and how std's `Debug` shows a text or a
-- set of paths, which is a parameter.
pub mod Prelude
pub mod HashMap
pub mod HashSet
pub mod Path
pub mod Channel
pub mod Decimal
pub mod Netlink
pub mod Mountinfo
pub mod Host
pub mod Netns
pub mod MountMonitor
pub mod Tracker
pub mod Util
pub mod Bin
pub mod Build
pub mod NetDevice
pub mod Sorting
pub mod SyscallMonitor
pub mod NsidMonitor
pub mod Libmount
pub mod Tests
