-- ===== src/Lib.antt =====
-- Verification of the Nachos kernel, nachos/nachos-3.4/code.
--
-- What is modelled, and where:
-- Utility models the rounding macros of threads/utility.h.
-- BitMap models userprog/bitmap.cc: an array of bits in 32-bit words, with Mark, Clear, Test,
--   FindFreeSlot and NumClear as mark, clear, test, find_free_slot and num_clear.
-- FileHeader models filesys/filehdr.cc: allocate and deallocate take the sectors of a file from a
--   bitmap and give them back; byte_to_sector finds a byte's sector.
-- Directory models filesys/directory.cc: find, add and remove over a table of names, which are C
--   strings of which nine bytes count.
-- Disk models the requests of machine/disk.cc and the synchronous calls of filesys/synchdisk.cc.
-- OpenFile models filesys/openfile.cc: read_at and write_at move bytes over a disk of whole sectors.
-- Memory models machine/translate.cc: translate finds a page's entry in the page table or the TLB,
--   and read_mem and write_mem are ReadMem and WriteMem over it. A failed access runs
--   raise_exception, delayed_load and exception_handler (machine/machine.cc, machine/mipssim.cc,
--   userprog/exception.cc); the system calls are a parameter there, which no access reaches.
-- Decode models the tables of machine/mipssim.h and Instruction::Decode as decode.
-- Mult models the function Mult of machine/mipssim.cc, which multiplies two registers by shifts and
--   additions of 32-bit words, as mult.
-- Cpu models OneInstruction of machine/mipssim.cc: Cpu.Step has the switch in four parts, execute_...,
--   and the routine around it, one_instruction; Cpu.Transfer its loads and stores. The system calls
--   are a parameter.
-- LinkedList models threads/list.cc with its elements in a heap: append, prepend, sorted_insert and
--   sorted_remove. The loop of sorted_insert takes as many rounds as the list has elements.
-- Threads models threads/thread.cc, threads/scheduler.cc and the semaphores of threads/synch.cc, each
--   routine as one operation up to the switch of the CPU: p is one test of the loop in P with what
--   follows it, dispatch is the loop of Sleep up to Run or Idle. Threads.Invariant composes them:
--   operate runs one operation, and a run of the kernel is a sequence of enabled ones. SWITCH, the
--   stacks and the interrupt level are left out; what an interrupt handler does is an operation too.
-- Interrupt models machine/interrupt.cc: the clock and the pending interrupts, with set_level,
--   one_tick, idle, schedule and check_if_due. What a handler asks for is a parameter. The loop that
--   fires what is due, fire_due, takes as many rounds as interrupts are due, and one more.
--   Interrupt.Calls describes what is due without the loop, as a fold over the handlers, left_by.
-- SemTable models userprog/stable.cc: create, wait and signal find a semaphore of the kernel by its
--   name and use p and v of Threads.
-- Console models Read and Write of threads/synchcons.cc over the bytes that the keyboard gives.
-- Integer models handle_SC_ReadInt and handle_SC_PrintInt of userprog/exception.cc as read_int and
--   print_int. The loop that counts the digits has twelve rounds, one more than an int needs.
-- AddressSpace models the constructor of userprog/addrspace.cc that takes a file name, create, with
--   its page table, set_up, and its loading loops, copy_in; and the destructor, release. With too
--   little memory the constructor deletes its open file twice, which is wild_access.
-- ProcessTable models userprog/ptable.cc and the calls of userprog/pcb.cc that it makes: exec_update,
--   join_update and exit_update; a routine that waits goes on as an operation of its own,
--   resume_join and resume_exit. The thread that Exec forks is left out. ProcessTable.Calls models
--   the system calls Exec, Join and Exit over it.
-- SemCalls models the system calls CreateSemaphore, Up and Down over SemTable, and TextCalls the ones
--   on characters and strings, ReadChar, PrintChar, ReadString and PrintString, over Console.
-- FileSystem models filesys/filesys.cc over the disk: create, remove, open_typed and open_untyped on
--   the bitmap, the directory and the headers as WriteBack stored them last, and the table of open
--   files. FileSystem.Extents says that no two files share a sector.
-- UserMemory models User2System and System2User of machine/machine.cc as user2system and system2user.
-- FileCalls models the system calls on files of userprog/exception.cc, handle_create_file, ..._open_,
--   ..._close_, ..._read_ and ..._write_file, over FileSystem, OpenFile, Console and UserMemory.
-- Base holds shared names, lists, bits of words, C strings and byte buffers.
--
-- Conventions: a routine that can fail at an ASSERT or leave an array returns a Result with the error
-- assertion_failed or wild_access; machine_halted is the end of the kernel by Halt. An int that the
-- code keeps non-negative is a natural number, and the value -1 of a search is none. What new finds in
-- memory is an argument. Counted loops recur on the rounds left, so no fuel is needed. The numbers of
-- the file system's model do not wrap: a request of OpenFile whose position and length add up to no
-- int stops in wild_access. An int of the user program, of a register and of a semaphore is its 32-bit
-- pattern. The registers that an instruction touches are tested against the array, by
-- check_registers, before its switch.
--
-- Not modelled: output, the latency of the disk and statistics, which decide nothing that a program
-- sees; ReadFloat and PrintFloat, since floating point is not modelled; SWITCH and the stacks, which
-- are machine code; the start of the kernel and the devices behind the console, the disk and the
-- timer (threads/main.cc, threads/system.cc, machine/console.cc, machine/timer.cc, machine/sysdep.cc),
-- which call the host; locks and conditions, whose bodies are empty; the post office (network/post.cc)
-- on sockets of the host; FetchFrom and WriteBack, since the file system holds what they store as
-- values; and the programs that are no part of the kernel (bin/, test/).
pub mod Base
pub mod Threads
pub mod Interrupt
pub mod SemTable
pub mod SemCalls
pub mod TextCalls
pub mod Console
pub mod Integer
pub mod AddressSpace
pub mod FileCalls
pub mod FileSystem
pub mod UserMemory
pub mod ProcessTable
pub mod Utility
pub mod BitMap
pub mod FileHeader
pub mod Directory
pub mod Disk
pub mod OpenFile
pub mod Memory
pub mod Mult
pub mod Decode
pub mod Cpu
pub mod LinkedList
