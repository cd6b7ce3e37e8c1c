-- ===== src/Lfht.antt =====
-- The hash table of src/rculfhash.c: the words that order its list of nodes, the operations on that
-- list, the requests to resize the table, and where its buckets are.
mod Bits
mod Reversal
mod Mirror
mod Size
mod Order
mod Memory
mod Buckets
mod Links
mod Place
mod Chain
mod Resize
mod Partition
mod Tests
