-- ===== src/Float.antt =====
-- What the code uses of the FPU and of math.h. The arithmetic of `float` and `double` is the
-- compiler's and the C library's, so it is a parameter: `Floats F` names the operations over a type
-- `F` of floats and over its type of doubles, with no law. A law that a theorem needs is one of the
-- hypotheses below.
mod Interface
mod Ops
mod Fixed
pub use Interface.*
pub use Ops.*
unfoldable pub use Fixed.*
