-- ===== src/Api.antt =====
-- api/v1alpha1: the custom resources that the controllers exchange. A string that the resource
-- definition restricts to an enumeration is a data type; `other` stands for any further text where
-- the code has a `default` branch for it. Sizes and generations are `int64` fields that the API
-- server keeps at 0 or more and that the code only copies and compares, so they are numbers.
-- `nil` pointers and missing timestamps are `none`.
mod Meta
mod Pool
mod Resources
unfoldable pub use Meta.*
unfoldable pub use Pool.*
unfoldable pub use Resources.*
