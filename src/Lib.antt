-- ===== src/Lib.antt =====
-- Models of the C programs of this repository, and theorems about them.
--
-- Mailbox_SourceCode adds mailboxes to the process manager of Minix: processes open a mailbox by
-- name, deposit messages for a list of receivers, retrieve them and close the mailbox; a sender
-- that finds a mailbox full is suspended until a receiver makes room. All of it is global state
-- with linked lists on the heap.
--   * Common: the native numbers, Boolean tests, strings and lists.
--   * Machine: what a piece of C does (`Run`): it returns, it is undefined (a read through NULL or
--     through a freed pointer, an array left), or a loop runs out of fuel; a heap is a function from
--     addresses, with 0 for NULL. Machine.Chain: which list stands behind a pointer.
--   * Mailbox: Minix_Mailbox_implementation/Mailbox_SourceCode/servers/pm/mailbox.c. State has the
--     structs and globals (`Pm`), Lookup the searches, Nodes listAppend and deleteProcess, Fetch
--     fetchMessage, Blocked the list of suspended senders, and Open, Close, Deposit and Retrieve the
--     system calls. Dispatch is unblockSystemCalls of servers/pm/main.c, and Library
--     the messages that lib/libc/sys-minix/mailbox.c sends. Functions keep their names
--     in antt's spelling: do_openMailbox is `do_open_mailbox`.
--   * Philosophers: Diners_pblm/diners_pblm.c and Diners_pblm_sem/diners_pblm_sem.c. State has the
--     table (places, mutexes, chairs), Plain and Chairs the two versions of philosopher_fn (`act`, the
--     next call of a philosopher) and the tables that any interleaving of the threads comes to
--     (`Reached`); Chopsticks and Rounds are the invariants that they share.
--   * Smokers: Smoker_pblm/smokers_pblm.c: agent_fn and smoker_fn (`agent_act`, `smoker_act`), and
--     the states that any interleaving comes to (`Reached`). Protocol has the abstract machine with
--     one pair on the table at a time, Refinement its relation to the threads.
--   * Integer, BinaryTree: Basic Datastructures/BinaryTree/test.c, over the signed int; Sorted has the
--     tree as the list that print_inorder prints, Find what search prints.
--   * HeapSort: Basic Datastructures/Heap/main.c; Heaps and Heapify have max_heapify, Sorted the loops.
--   * Merging, DupRemoval, MergeSort: Duplicate_removal_arrays/duplicate_removal_method_1.c, whose
--     merge is in DupRemoval.Union, with the union of two runs in Sets, and whose rm_duplicate in
--     DupRemoval.Distinct, and Basic Datastructures/MergeSort/mergesort.c; Merging has the loops that
--     both merges have.
--   * ArrayMerge: array_merge_thread/array_merge_thread.c, the work of one thread; Search is its
--     binary search. ArrayMerge.Main has main and the threads: `main_act` and `worker_act` are their
--     next calls, and `Reached` any interleaving of them; Phases says where the thread of a round may
--     be, Merged has the third array at the end, Stops where the program may stop and
--     LostSignal the deadlock.
--     Machine.Array has the arrays of all these, with a fault outside their bounds.
--   * MatMul: Mat_Mul_Threads/mat_mul.c; Product has the loops of multiply, Slices the division of
--     the rows among the threads, done one after another. MatMul.Threads has main and the threads a
--     statement at a time, in any order, for a number of threads that is not negative; Rows and Loops
--     are what a slice has done at each, and a slice whose bounds overflow int is undefined.
--   * Digits: Inc_Dec_Number_problem/Basic_Solution/top.c, and in Digits.Pattern the version of
--     Using_pattern_matching/patten_matching.c.
--   * Shell: Minix_shell/GRS_Source_Code. Trim is trimWhitespace of grsShellUtils.c; Parser is
--     grsFillCmd of grsParser.c, which cuts a line at | < > ; & (Lines has a line as it is written),
--     and the choice of the handler in grsCmdLoop (`enter`), which CmdLoop runs on the characters of
--     the input; IfThenElse is
--     grsIfThenElse.c, with grsCmdExec as a parameter. Words is parseCmd, Jobs the list of background
--     processes and Spawn grsSpawnProcess, all of grsProcess.c; Alias is grsAlias.c, Profile
--     loadProfile of grsMain.c, and Redirection grsRedirection.c with the start of grsPipes.c. The
--     system calls are parameters: fork gives 0 in the child and execvp may not return.
--   * Fragments: Minix_Filefrag/src/proj3src/servers/mfs/ext_frag.c and int_frag.c: the counting of
--     blocks, the reports (Fragments.Reports), the scan of a block of the inode bitmap
--     (Fragments.Bits), and the calls grsExtFrag, grsIntFrag and grsIntFragFile (Fragments.Programs),
--     over a `Disk` of what Minix reads.
--   * FileInfo: Minix_Filefrag/fileinfo/fileinfo/usr/src: do_fileinfo of servers/vfs/fileinfo.c is in
--     Holders, fs_blockinfo of servers/mfs/blockinfo.c in Blocks, and do_blockinfo with the functions
--     of lib/libc/sys-minix/fileinfo.c in Calls.
--
-- `World` has what lies outside the code: the process table, what sys_datacopy brings, the flags of
-- open, and what memory from malloc or on the stack holds before it is written. A `while` loop is
-- recursion on fuel; that fuel above the length of a list is enough is part of each theorem, and
-- where a loop does not end the theorem says so for each fuel. int is a natural number, with
-- `% 2 ^ 32` where it is counted up. printf is left out, as are the copies of Minix files (main
-- loop, tables, prototypes, request.c) and the C++ programs.
pub mod ArrayMerge
pub mod BinaryTree
pub mod Common
pub mod Digits
pub mod DupRemoval
pub mod FileInfo
pub mod Fragments
pub mod HeapSort
pub mod Integer
pub mod Machine
pub mod Mailbox
pub mod MatMul
pub mod MergeSort
pub mod Merging
pub mod Philosophers
pub mod Shell
pub mod Smokers
