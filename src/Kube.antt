-- ===== src/Kube.antt =====
-- The Kubernetes API objects (k8s.io/api, k8s.io/apimachinery) with the fields that the program
-- reads or sets. `X` stands for whatever the program only passes along: `other : Option X` holds
-- the remaining fields of a struct, `none` for their zero values. A nil map or pointer is `none`.
mod Pods
mod Jobs
pub use Pods.*
pub use Jobs.*
