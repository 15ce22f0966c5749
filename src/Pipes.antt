-- ===== src/Pipes.antt =====
-- lab6_pipefifo: a line of text from a process to its child, through a pipe and through a FIFO.
pub mod Message
pub mod Pipe
pub mod Fifo
pub mod PipeLaws
pub mod FifoLaws
mod Tests
