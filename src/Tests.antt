-- ===== src/Tests.antt =====
-- The theorems at concrete inputs. The inputs are small states of the kernel, in the child module.
mod States
mod Processes
mod Heaps
mod Memory
mod Commands
mod Texts
mod Images
mod Timer
mod Messages
