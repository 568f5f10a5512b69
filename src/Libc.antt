-- ===== src/Libc.antt =====
-- What the sources use of the C library: <string.h>, <ctype.h>, <stdlib.h> and the number formats
-- of <stdio.h>, on texts as lists of bytes.
pub mod Strings
pub mod Numbers
pub mod Streams
