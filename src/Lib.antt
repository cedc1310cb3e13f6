-- ===== src/Lib.antt =====
-- The ini file library in both of its versions, v2.0.0/inifile.c and v1.0.0/inifile.c with their
-- headers, the work lists of the port scanner, portscan/ps_setup.c, and some functions of
-- module_function: on strings, lists and arrays, and the thread pool.
--
-- Version 2 keeps ini files in memory and on disk at once. A file is read line by line into a
-- list of sections, each with a list of keys and values; the nodes stand in static arrays, and the
-- strings in a pool of two halves, of which one is in use. When it is full the strings in use are
-- moved to the other half. An operation that changes a value changes the lists first, and then
-- writes a changed copy of the file, `<name>.tmp`, which takes the file's place.
--
-- Version 1 reads a file into a doubly linked list of nodes, each with a list of its keys, and
-- writes the whole file again after each change; its strings stand in arrays of 68 bytes.
--
-- The parts, from the bottom up; a definition has the name of the C function, or is named for
-- the part of it that it is.
--   Base, Text      lists of bytes; str_int_len, str_frist_constchar, find_frist_endchar, memcmp,
--                   and the lines that the `fgets` loops read
--   Line            judge_ini_file_linetype, and what is cut out of a line: the key and value of
--                   init_line_key_val and the name of init_line_section. Line/Judge is about the
--                   types of lines, Line/KeyValue and Line/Section about reading back what was
--                   put together
--   Memory          the static variables as one record, World: the pool (MEMORY_POOL), the arrays
--                   of files, sections and keys, and the disk; the error codes; actions M on a
--                   World, and in Memory/Preserves the rules for invariants of actions
--   Pool            ini_file_memory_adjust, storage_char_memory, ini_file_memory_init. Pool/Fits is
--                   about a half with room, Pool/Bounds about all branches, Pool/Moves,
--                   Pool/Adjust and Pool/Adjusted about moving to a clean half, Pool/Stale about
--                   one that is not clean
--   Slots           get_index_ini_file, get_index_ini_section, get_index_ini_keyvalue
--   Store           find_inifile_section, find_keyvalue_unsect, init_line_key_val,
--                   init_line_section. Store/Chain is about lists that nodes are put in or taken
--                   out of, Store/Same about memories in which a search finds the same
--   Load            init_every_line_inifile and read_analys_ini_file
--   Rewrite         rewrite_after_update, rewrite_after_add, rewrite_after_delete, each in a module
--                   of its own (Update, Add, Delete) over the loop that they share. Rewrite/Safe,
--                   Rewrite/Errors and Rewrite/Unused are about how they end, Rewrite/Renamed about
--                   the shell's commands, Rewrite/Changes, Rewrite/Changed and Rewrite/Whole about
--                   the text that they leave, and Rewrite/ReadBack and Rewrite/Added about
--                   reading that text again
--   Api             the functions of inifile.h: Api/Values (get_value_ofkey, update_value_ofkey,
--                   add_value_ofkey, delete_value_ofkey), Api/Sections (add_ini_section,
--                   delete_ini_section), Api/Files (init_ini_file, destroy_ini_source).
--                   Api/Bounds is about the pool, Api/Appends and Api/Removes about the lists
--   Tool            string helpers of module_function/frame_tool.c, and the list of
--                   module_function/key_value_part.c
--   Lottery         bubble_sort of module_function/lottery.c
--   Linked          v1.0.0/inifile.c: its records and codes. Linked/Chars has the string functions
--                   and the searches, Linked/Read initIniFile and what it calls, Linked/Write
--                   updateIniFile, Linked/Check ini_parameter_check, Linked/Operations the calls
--                   of inifile.h, Linked/Links the lists as nodes in memory with their pointers.
--                   init_linked_file is initIniFile, delete_section_of deleteSection; list_insert
--                   and destroy_list stand for the functions of both lists. Linked/Reload is about
--                   a document that is written and read again, Linked/Operations/Traces about any
--                   sequence of calls
--   Scan            portscan/ps_setup.c: the lists of addresses, ports, jobs and results (push_ip,
--                   push_port, push_job, get_next_job, change_scan_mode and the functions that
--                   destroy them). Scan/Ports is get_ports and get_ports_range, Scan/Jobs
--                   create_jobs, Scan/Results push_result, Scan/Address get_hostcount and the
--                   netmask and hosts of get_ipAdresses. gethostbyname is a parameter
--   ThreadPool      module_function/frame_thread_pool.c: client_step is a step of
--                   frame_add_job_queue and worker_step one of thread_routine, and Runs is any
--                   interleaving of them. ThreadPool/Moves is about one step, ThreadPool/Balance
--                   about a run. frame_threadpool_destroy is not modelled
--   Tests           runs on a small file, and the theorems at concrete inputs
--
-- A pointer to a node is its index in its array, and a `char *` into the pool is a half and an
-- offset; NULL is `none`. A line is the list of its bytes, and the buffer behind it holds 0. A
-- call ends with `ok`, with `err` and its code, or with `fault` where the source has no defined
-- behaviour: a NULL pointer that is followed or printed, or a ring of nodes. In Linked a run ends with `done`
-- or with `undefined`, and a list is the list of its nodes in order; the pointers
-- are in Linked/Links. The calls of `write` do what a list of outcomes says: each is
-- interrupted, fails or takes a part.
--
-- Bounds and fuel. The sizes are those of inifile.h: 2 files, 10 sections, 100 keys, halves of 3072
-- bytes. A walk along a list has one step more than its array has nodes: a list without a ring
-- ends before. `read_lines` has as many steps as the file has bytes, and each line that is read
-- takes at least one, as with `read_ini_loop`. The walks of Linked/Links are given a number of
-- steps, and the theorems on them name how many. `note_loop` has as many as there are bytes before the semicolon.
--
-- Not modelled: the mutexes, an operation being one step; what is printed; re_write_ini_file, which
-- no function calls, and the test program, main and ini_file_info_out; the overflow of an `int`, of
-- the line buffer of 1024 bytes and of the buffers for file names and shell commands; what the
-- shell makes of the characters of a file's name, and its `rm` of a copy being refused; the lengths that are written back to the
-- caller's INI_PARAMETER. A negative descriptor takes the branch of one that is too large, a
-- negative length that of 0. `access` and `fopen` are two questions that World's disk answers,
-- whether there is a file, and whether it can be written; whether the shell's `rm` and `mv` are
-- successful are two more. In Linked a file that is there can be
-- read and written, `malloc` does not fail, and the descriptors left open and the memory not given
-- back behind an error are left out. In Scan the parsing of the command line, the
-- reading of a file of addresses and the printing are left out, `%` and `/` stand for the bytes of
-- a number, and a little-endian machine is meant. Of module_function only Tool, Lottery and ThreadPool
-- are modelled; the scanning itself (portscan/ps_scan.c, ps_version.c), demo and c_execl are not.
pub mod Base
pub mod Text
pub mod Line
pub mod Memory
pub mod Pool
pub mod Slots
pub mod Store
pub mod Load
pub mod Tool
pub mod Linked
pub mod Lottery
pub mod Scan
pub mod ThreadPool
pub mod Rewrite
pub mod Api
pub mod Tests
