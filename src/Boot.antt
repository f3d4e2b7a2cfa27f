-- ===== src/Boot.antt =====
-- Starting the kernel: the constructor of the scheduler, the first task, and `Run`.
pub mod Start
pub mod Established
pub mod Running
pub mod Main
pub mod Program
pub mod Lasting
