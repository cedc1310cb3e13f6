-- ===== src/Tests/Moved.antt =====
-- Moving the strings of the memory with one section and two keys.
use ini.Memory.{World}
use ini.Pool.{ini_file_memory_adjust}
use ini.Tests.Operations.{listed}

abbrev adjusted : World
adjusted = (ini_file_memory_adjust listed).1
