-- ===== src/Util.antt =====
-- src/util: a writer that counts lines, a one-shot receiver that can be polled on, and a stream that a
-- signal stops.
pub mod LineCountWriter
pub mod OneshotRecv
pub mod StoppableStream
