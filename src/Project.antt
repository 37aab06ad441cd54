-- ===== src/Project.antt =====
-- src/request/project: clusters, and the deployment of images to them.
pub mod Tables
pub mod Outside
pub mod Cluster
pub mod Deploy
pub mod Lists
pub mod Controller
