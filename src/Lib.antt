-- ===== src/Lib.antt =====
-- IonDB, a key-value store for small devices: the dictionaries under src/dictionary.
--
-- A client calls a dictionary through the functions of src/dictionary/dictionary.c, which pass the
-- call on to the handler of one implementation; a handler's cursor delivers the records that satisfy
-- a predicate. This library models some of these parts, each in a module named for it.
--
-- - System: src/key_value/kv_system.h and the enumerations of src/dictionary/dictionary_types.h.
-- - Key: what the dictionaries ask of the comparison function that `dictionary_parent.compare` holds
--   (`KeyOrder`: it is a total preorder) and of a hash function (`KeyHash`: keys that compare equal
--   have the same hash, and no hash is below 0, where `%` would give a location outside the array).
--   It is the interface between the two parts: the theorems on a dictionary assume it, and those on
--   the functions of dictionary.c fill it.
-- - Dictionary: the predicates of a cursor; Dictionary/Compare the comparison functions for numeric
--   keys (`dictionary_compare_unsigned_value`, `dictionary_compare_signed_value`) on the bytes of a
--   key, as compiled for a little-endian machine.
-- - OpenAddressHash: src/dictionary/open_address_hash/open_address_hash.c. `HashMap` is `struct
--   hashmap`, with the buckets as a list and `is_allocated` for an `entry` that is not null; `insert`,
--   `update`, `delete`, `get` and `find_item_loc` are the functions with the prefix `oah_`. A location
--   is an integer, and one below 0 a `fault`. OpenAddressHash/SimpleHash is `oah_compute_simple_hash`.
-- - OpenAddressDictionary: the cursors of open_address_hash_dictionary_handler.c (`oadict_find`,
--   `oadict_scan`, `oadict_next`), and the loop that reads a cursor to its end.
-- - OpenAddressFileHash: src/dictionary/open_address_file_hash/open_address_file_hash.c, with the
--   buckets of the file as a list and the position in the file as the code moves it (the prefix is
--   `oafh_`). Its Client runs a sequence of calls on the file and on the map in memory.
-- - OpenAddressFileDictionary: the cursors of open_address_file_hash_dictionary_handler.c
--   (`oafdict_find`, `oafdict_scan`, `oafdict_next`).
-- - FlatFile: src/dictionary/flat_file/flat_file.c. `FlatFile` is `ion_flat_file_t`, with the rows of
--   the file as a list; `scan_forwards_from` and `scan_backwards_from` are `flat_file_scan` in the two
--   directions. FlatFile/Search is `flat_file_binary_search`, FlatFile/Operations the functions
--   `flat_file_insert`, `flat_file_get`, `flat_file_delete` and `flat_file_update`, FlatFile/Start
--   `flat_file_initialize`.
-- - FlatFileDictionary: the cursors of flat_file_dictionary_handler.c (`ffdict_find`, `ffdict_next`),
--   and the loop that reads a cursor to its end.
-- - LinkedFileBag: src/file/linked_file_bag.c over the reads and writes of src/file/ion_file.c (the
--   prefix is `lfb_`). `Bag` is `ion_lfb_t`, with the records of the file as a list of slots, each with
--   the offset of the next one; LinkedFileBag/Chain says what a chain of records is.
-- - SkipList: src/dictionary/skip_list/skip_list.c (the prefix is `sl_`). `SkipList` is
--   `ion_skiplist_t` with the memory of its nodes, a list by address. `Tower` in SkipList/Levels is a
--   node in the list; SkipList/Valid says when the memory holds a list of towers, level by level.
-- - Lfsr: src/util/lfsr/lfsr.c.
--
-- A run of code is a `Run`: it ends in a value, or in `fault` for undefined behaviour (an access
-- outside the array, a remainder by zero). The loops of the hash map recur on the rounds that are
-- left of `map_size`, as the code counts them; a scan has `map_size` steps of fuel, and to read a
-- cursor takes at most one call of `next` more than there are records. `fault` also stands for fuel
-- that has run out, so that a theorem that a run returns a value says that the fuel was enough.
-- Keys and values are of any type, with the comparison function in the map, so that `memcpy` is
-- assignment. Reads and writes inside a flat file succeed, and its rows are longer than the header
-- of 4 bytes, so that no row starts before the data. Its scans have as many steps of fuel as there
-- are rows, its deletions and updates one more. A walk along a chain of the bag has one step for each
-- slot of the file, and one along a level of the skip list one for each address and one more: no
-- chain and no level passes a place twice. An `int` is a number without overflow: sizes and
-- locations are below 2 ^ 30.
--
-- The length of the name of a file, which `snprintf` computes from the id of the dictionary, is the
-- parameter `filename_length`.
--
-- Not modelled: allocation that fails in a cursor or a skip list, printing, the string comparisons,
-- which are calls of `strncmp`, the closing of a flat file, and the other implementations.
pub mod Base
pub mod System
pub mod Key
pub mod Dictionary
pub mod OpenAddressHash
pub mod OpenAddressDictionary
pub mod FlatFile
pub mod FlatFileDictionary
pub mod OpenAddressFileHash
pub mod OpenAddressFileDictionary
pub mod LinkedFileBag
pub mod SkipList
pub mod Lfsr
