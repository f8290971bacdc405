-- ===== src/Services/Doctor.antt =====
-- services/doctor_service.py, crew/doctor_graph.py and the specifications of schemas/doctor.py.
pub mod Counting
pub mod Input
pub mod Writing
pub mod Validating
pub mod Laws
pub mod Validated
