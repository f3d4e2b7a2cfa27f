-- ===== src/Examples.antt =====
-- Concrete inputs for the theorems, and tests of the definitions.
mod Lists
mod Store
mod Tasks
mod Threads
mod Scheduling
mod Messages
mod Faults
mod Calls
mod Sleeping
mod Locking
mod Maps
mod Launching
mod Booting
mod Porting
mod Printing
mod Machines
mod Conduct
